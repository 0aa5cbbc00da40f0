-- ===== src/Stream/Fidelity.antt =====
-- One packet in `stream_turn` of app/api/_chat_stream.py keeps the state good.
use mathlib.Core.List.{append_assoc, append-nil}
use me.Base.{
  ℕ, ◌+◌, ◌≡◌, refl, sym, ap, ◌∙◌, Option, none, some, List, [], ◌∷◌, ◌++◌, map, arith, ◌==◌, inl,
  inr, Bool-cases, All, Text, Option-cases, text_eq, text_eq_iff, ==_iff,
}
use me.Stream.{ToolEvent, Event, text_event, tool_event}
use me.Stream.Steps.{text, tool, StepAssigner, lookup_step, tool_step}
use me.Stream.State.{
  Events, get_event, set_event, new_tool_event, set_tool, text_record, event_of, join, event_text,
}
use me.Stream.Content.{
  AllBelow, Ascending, get_event_new, set_event_new, AllBelow-weaken, AllBelow-append,
  Ascending-append, AllBelow-set_event, Ascending-set_event,
}
use me.Stream.Replay.{IsEntry, get_event_last, set_event_last}
use me.Stream.Invariant.{
  Known, Good, IsChange, get_event-set_event, entries-append, join-append, entries-set_tool,
  join-set_tool,
}

-- A write at a step that is no tool call's.
Known-other :
    (steps : List (Text × ℕ)) (n : ℕ) (e : Event) (events : Events)
    → ((r : ToolEvent) → get_event n events ≡ some (tool_event r) → ⊥)
    → Known steps events
    → Known steps (set_event n e events)
Known-other steps n e events free k id s h =
    let (r, old, same) = k id s h in
    elim (Bool-cases (n == s)) [
      | inl at ↦ absurd (free r (rw ((==_iff n s).0 at) old))
      | inr past ↦ (r, get_event-set_event s n e events ∙ rw past old, same)
    ]

-- A write of a tool call's record that keeps its id.
Known-tool :
    (steps : List (Text × ℕ)) (n : ℕ) (r r' : ToolEvent) (events : Events)
    → get_event n events ≡ some (tool_event r)
    → r'.tool_call_id ≡ r.tool_call_id
    → Known steps events
    → Known steps (set_event n (tool_event r') events)
Known-tool steps n r r' events at kept k id s h =
    let (r1, old, same) = k id s h in
    elim (Bool-cases (n == s)) [
      | inl here ↦
          let n_s : n ≡ s = (==_iff n s).0 here in
          let one : r ≡ r1 = same_record r r1 (sym at ∙ rw n_s old) in
          (
            r',
            get_event-set_event s n (tool_event r') events ∙ rw here refl,
            kept ∙ ap (λ (x : ToolEvent). x.tool_call_id) one ∙ same,
          )
      | inr past ↦ (r1, get_event-set_event s n (tool_event r') events ∙ rw past old, same)
    ]
  where
    same_record : (a b : ToolEvent) → some (tool_event a) ≡ some (tool_event b) → a ≡ b
    same_record a b e = cc

free_new :
    (n : ℕ) (events : Events)
    → AllBelow n events
    → (r : ToolEvent) → get_event n events ≡ some (tool_event r)
    → ⊥
free_new n events b r h = let e = get_event_new n events b in ground arith

-- A new event at the next step.
record Opened (a : StepAssigner) (e : Event) (events : Events) (said : Text) : Type 0 where
  written : set_event a.next e events ≡ events ++ (a.next, e) ∷ []
  below : AllBelow (a.next + 1) (events ++ (a.next, e) ∷ [])
  ascending : Ascending (events ++ (a.next, e) ∷ [])
  entries : All IsEntry (events ++ (a.next, e) ∷ [])
  known : Known a.tool_steps (events ++ (a.next, e) ∷ [])
  content : join (map event_of (events ++ (a.next, e) ∷ [])) ≡ said ++ event_text e

enters :
    (a : StepAssigner) (e : Event) (events : Events) (said : Text)
    → IsEntry (a.next, e)
    → Good a events said
    → Opened a e events said
enters a e events said entry g =
    let w = set_event_new a.next e events g.below in
    record {
      written = w;
      below =
          AllBelow-append (a.next + 1) a.next e events (omega arith)
            (AllBelow-weaken a.next (a.next + 1) events (omega arith) g.below);
      ascending = Ascending-append a.next e events g.below g.ascending;
      entries = entries-append events (a.next, e) g.entries entry;
      known =
          rw w at
            (Known-other a.tool_steps a.next e events (free_new a.next events g.below) g.known);
      content = join-append events a.next e ∙ ap (λ t. t ++ event_text e) g.content;
    }

-- What a packet with a step does: it is assigned one, and the state stays good.
abbrev pub Advances : Option ℕ × StepAssigner → (ℕ → Events) → Text → Type 0
Advances r write said = (s : ℕ) × (r.0 ≡ some s) × Good r.1 (write s) said

tool_known :
    (id name : Text) (change : ToolEvent → ToolEvent) (a : StepAssigner) (events : Events)
    (said : Text) (s : ℕ)
    → IsChange change
    → Good a events said
    → lookup_step id a.tool_steps ≡ some s
    → Good (record a { last_kind = some tool }) (set_tool s id name change events) said
unfolding set_tool
tool_known id name change a events said s c g h =
    let (r, at, same) = g.known id s h in
    rw at (record {
      below = AllBelow-set_event a.next s _ events (rw at refl) g.below;
      ascending = Ascending-set_event s _ events (rw at refl) g.ascending;
      entries = entries-set_tool s change r events c at g.entries;
      known = Known-tool a.tool_steps s r (change r) events at (c.same_call r) g.known;
      opened = tt;
      content = join-set_tool s r (change r) events at ∙ g.content;
    })

Known-new :
    (steps : List (Text × ℕ)) (id : Text) (n : ℕ) (r : ToolEvent) (events : Events)
    → AllBelow n events
    → r.tool_call_id ≡ id
    → Known steps (events ++ (n, tool_event r) ∷ [])
    → Known ((id, n) ∷ steps) (events ++ (n, tool_event r) ∷ [])
unfolding lookup_step
Known-new steps id n r events b own k j s h = elim (Bool-cases (text_eq id j)) [
  | inl at ↦
      let same : n ≡ s = ground arith in
      (r, rw (← same) (get_event_last n (tool_event r) events b), own ∙ (text_eq_iff id j).0 at)
  | inr past ↦ k j s (rw past at h)
]

tool_new :
    (id name : Text) (change : ToolEvent → ToolEvent) (a : StepAssigner) (events : Events)
    (said : Text)
    → IsChange change
    → Good a events said
    → Good
        (record a {
          next = a.next + 1;
          text_step = none;
          tool_steps = (id, a.next) ∷ a.tool_steps;
          last_kind = some tool;
        })
        (set_tool a.next id name change events)
        said
unfolding set_tool
tool_new id name change a events said c g =
    let r = change (new_tool_event a.next id name) in
    let o =
      enters a (tool_event r) events said
        (c.entry a.next (new_tool_event a.next id name) (refl, λ e. (refl, refl))) g in
    rw (get_event_new a.next events g.below) (
      rw o.written (record {
        below = o.below;
        ascending = o.ascending;
        entries = o.entries;
        known =
            Known-new a.tool_steps id a.next r events g.below
              (c.same_call (new_tool_event a.next id name)) o.known;
        opened = tt;
        content = o.content ∙ append-nil said;
      }))

pub tool-Advances :
    (id name : Text) (change : ToolEvent → ToolEvent) (a : StepAssigner) (events : Events)
    (said : Text)
    → IsChange change
    → Good a events said
    → Advances (tool_step id a) (λ s. set_tool s id name change events) said
unfolding tool_step
tool-Advances id name change a events said c g = elim (Option-cases (lookup_step id a.tool_steps)) [
  | inl e ↦ rw e (a.next, refl, tool_new id name change a events said c g)
  | inr (s, e) ↦ rw e (s, refl, tool_known id name change a events said s c g e)
]

-- A text packet that begins an event.
pub text_new :
    (delta : Text) (a : StepAssigner) (events : Events) (said : Text)
    → Good a events said
    → Good
        (record a { text_step = some a.next; next = a.next + 1; last_kind = some text })
        (set_event a.next (text_record a.next delta (get_event a.next events)) events)
        (said ++ delta)
unfolding text_record
text_new delta a events said g =
    let o = enters a (text_event a.next delta) events said refl g in
    rw (get_event_new a.next events g.below) (
      rw o.written (record {
        below = o.below;
        ascending = o.ascending;
        entries = o.entries;
        known = o.known;
        opened = (a.next, events, delta, refl, refl);
        content = o.content;
      }))

entries-init :
    (events : Events) (x : ℕ × Event) → All IsEntry (events ++ x ∷ []) → All IsEntry events
entries-init [] x h = tt
entries-init (y ∷ events) x h = (h.0, entries-init events x h.1)

-- A text packet that continues the last event.
pub text_more :
    (delta : Text) (a : StepAssigner) (init : Events) (s : ℕ) (c said : Text)
    → a.last_kind ≡ some text
    → a.text_step ≡ some s
    → AllBelow s init
    → Good a (init ++ (s, text_event s c) ∷ []) said
    → Good a
        (set_event s
          (text_record s delta (get_event s (init ++ (s, text_event s c) ∷ [])))
          (init ++ (s, text_event s c) ∷ []))
        (said ++ delta)
unfolding text_record
text_more delta a init s c said k t b g =
    let old : Events = init ++ (s, text_event s c) ∷ [] in
    let here = get_event_last s (text_event s c) init b in
    let written = set_event_last s (text_event s c) (text_event s (c ++ delta)) init b in
    rw here (record {
      below = AllBelow-set_event a.next s _ old (rw here refl) g.below;
      ascending = Ascending-set_event s _ old (rw here refl) g.ascending;
      entries =
          rw written (
            entries-append init (s, text_event s (c ++ delta)) (entries-init init _ g.entries)
              refl);
      known = Known-other a.tool_steps s _ old (λ r h. not_text r (sym here ∙ h)) g.known;
      opened = rw k (s, init, c ++ delta, t, written);
      content =
          ap (λ (l : Events). join (map event_of l)) written
          ∙ join-append init s (text_event s (c ++ delta))
          ∙ sym (append_assoc (join (map event_of init)) c delta)
          ∙ ap (λ x. x ++ delta) (sym (join-append init s (text_event s c)) ∙ g.content);
    })
  where
    not_text : (r : ToolEvent) → some (text_event s c) ≡ some (tool_event r) → ⊥
    not_text r e = ground arith

-- ===== src/Stream/Replayable.antt =====
-- Which packets make `stream_turn` of app/api/_chat_stream.py store events that `replay_stream` can send.
use me.Base.{
  ℕ, ◌≡◌, refl, sym, ap, ◌∙◌, Option, none, some, List, [], ◌∷◌, ◌++◌, arith, All, Text, inl, inr,
  Bool-cases, Option-cases, ◌==◌,
}
use me.Cursor.{Json}
use me.Stream.{
  Status, Packet, start, finish, error, text_delta, tool_start, tool_call, tool_end, ToolEvent,
  Event, text_event, tool_event,
}
use me.Stream.Steps.{StepAssigner, lookup_step, tool_step, step_for, with_step}
use me.Stream.State.{
  Events, StreamState, get_event, set_event, set_tool, new_tool_event, with_arguments, with_outcome,
  text_record, fold_events, fold,
}
use me.Stream.Content.{get_event_new}
use me.Stream.Turn.{run_packets, ToolClass}
use me.Stream.Invariant.{Good, streamed_text}
use me.Stream.Faithful.{packet-Good}

-- The class of a tool is there, and validates the payload to what it was dumped from.
abbrev pub ArgumentsAccepted : Option ToolClass → Option Json → Type 0
ArgumentsAccepted none arguments = ⊥
ArgumentsAccepted (some cls) none = Unit
ArgumentsAccepted (some cls) (some arguments) = cls.validate_arguments arguments ≡ some arguments

abbrev pub ResultAccepted : Option ToolClass → Option Json → Type 0
ResultAccepted none result = ⊥
ResultAccepted (some cls) none = Unit
ResultAccepted (some cls) (some result) = cls.validate_result result ≡ some result

no_result : (o : Option ToolClass) (x : Option Json) → ArgumentsAccepted o x → ResultAccepted o none
no_result (some cls) x h = tt
no_result none x h = elim h [ ]

no_arguments :
    (o : Option ToolClass) (x : Option Json) → ResultAccepted o x → ArgumentsAccepted o none
no_arguments (some cls) x h = tt
no_arguments none x h = elim h [ ]

module _ (tool_class_by_name : Text → Option ToolClass) (tool_of : Text → Text) where
  -- The packets of one `tool_call_id` name one tool, a registered one, which accepts what it dumped.
  abbrev pub PacketAccepted : Packet → Type 0
  PacketAccepted (tool_start step id name) =
      (name ≡ tool_of id) × ArgumentsAccepted (tool_class_by_name name) none
  PacketAccepted (tool_call step id name arguments) =
      (name ≡ tool_of id) × ArgumentsAccepted (tool_class_by_name name) (some arguments)
  PacketAccepted (tool_end step id name status result err) =
      (name ≡ tool_of id) × ResultAccepted (tool_class_by_name name) result
  PacketAccepted p = Unit

  pub record Replayable (r : ToolEvent) : Type 0 where
    pub named : r.tool ≡ tool_of r.tool_call_id
    pub accepted : ArgumentsAccepted (tool_class_by_name r.tool) r.arguments
    pub returned : ResultAccepted (tool_class_by_name r.tool) r.result

  abbrev pub EventReplayable : Event → Type 0
  EventReplayable (text_event s content) = Unit
  EventReplayable (tool_event r) = Replayable r

  abbrev pub AllReplayable : Events → Type 0
  AllReplayable events = All (λ (x : ℕ × Event). EventReplayable x.1) events

  AllReplayable-set_event :
      (s : ℕ) (e : Event) (events : Events)
      → EventReplayable e
      → AllReplayable events
      → AllReplayable (set_event s e events)
  unfolding set_event
  AllReplayable-set_event s e [] h k = (h, tt)
  AllReplayable-set_event s e ((j, x) ∷ events) h k = elim (Bool-cases (j == s)) [
    | inl at ↦ rw at (h, k.1)
    | inr past ↦ rw past (k.0, AllReplayable-set_event s e events h k.1)
  ]

  get_event-Replayable :
      (s : ℕ) (r : ToolEvent) (events : Events)
      → AllReplayable events
      → get_event s events ≡ some (tool_event r)
      → Replayable r
  unfolding get_event
  get_event-Replayable s r [] k h = absurd (ground arith)
  get_event-Replayable s r ((j, x) ∷ events) k h = elim (Bool-cases (j == s)) [
    | inl at ↦ let same : x ≡ tool_event r = ground arith in rw same at k.0
    | inr past ↦ get_event-Replayable s r events k.1 (ground arith)
  ]

  -- What a tool packet writes fits the record of its call, and a new one.
  record Fits (id name : Text) (change : ToolEvent → ToolEvent) : Type 0 where
    fresh : (s : ℕ) → Replayable (change (new_tool_event s id name))
    more : (r : ToolEvent) → r.tool_call_id ≡ id → Replayable r → Replayable (change r)

  start-Fits :
      (id name : Text)
      → name ≡ tool_of id
      → ArgumentsAccepted (tool_class_by_name name) none
      → Fits id name (λ r. r)
  start-Fits id name n h = record {
    fresh = λ s. record {
      named = n;
      accepted = h;
      returned = no_result (tool_class_by_name name) none h;
    };
    more = λ r e k. k;
  }

  -- The tool of a record is the one that a packet of its call names.
  one_tool :
      (r : ToolEvent) (id name : Text)
      → r.tool_call_id ≡ id
      → name ≡ tool_of id
      → Replayable r
      → name ≡ r.tool
  one_tool r id name e n k = n ∙ ap tool_of (sym e) ∙ sym k.named

  call-Fits :
      (id name : Text) (arguments : Json)
      → name ≡ tool_of id
      → ArgumentsAccepted (tool_class_by_name name) (some arguments)
      → Fits id name (with_arguments arguments)
  call-Fits id name arguments n h = record {
    fresh = λ s. record {
      named = n;
      accepted = h;
      returned = no_result (tool_class_by_name name) (some arguments) h;
    };
    more = λ r e k. record {
      named = k.named;
      accepted = rw (one_tool r id name e n k) at h;
      returned = k.returned;
    };
  }

  end-Fits :
      (id name : Text) (status : Status) (result : Option Json) (err : Option Text)
      → name ≡ tool_of id
      → ResultAccepted (tool_class_by_name name) result
      → Fits id name (with_outcome status result err)
  end-Fits id name status result err n h = record {
    fresh = λ s. record {
      named = n;
      accepted = no_arguments (tool_class_by_name name) result h;
      returned = h;
    };
    more = λ r e k. record {
      named = k.named;
      accepted = k.accepted;
      returned = rw (one_tool r id name e n k) at h;
    };
  }

  tool-Replayable :
      (id name : Text) (change : ToolEvent → ToolEvent) (a : StepAssigner) (events : Events)
      (said : Text)
      → Good a events said
      → Fits id name change
      → AllReplayable events
      → (s : ℕ) × ((tool_step id a).0 ≡ some s) × AllReplayable (set_tool s id name change events)
  unfolding tool_step set_tool
  tool-Replayable id name change a events said g f h =
      elim (Option-cases (lookup_step id a.tool_steps)) [
        | inl e ↦
            let free = get_event_new a.next events g.below in
            rw e
              (a.next, refl, rw free (AllReplayable-set_event a.next _ events (f.fresh a.next) h))
        | inr (s, e) ↦
            let (r, at, own) = g.known id s e in
            rw e (
              s,
              refl,
              rw at (
                  AllReplayable-set_event s _ events
                    (f.more r own (get_event-Replayable s r events h at)) h),
            )
      ]

  text-Replayable :
      (s : ℕ) (delta : Text) (old : Option Event) → EventReplayable (text_record s delta old)
  unfolding text_record
  text-Replayable s delta none = tt
  text-Replayable s delta (some (text_event k c)) = tt
  text-Replayable s delta (some (tool_event r)) = tt

  text_packet-Replayable :
      (o step : Option ℕ) (delta : Text) (events : Events)
      → AllReplayable events
      → AllReplayable (fold_events (with_step o (text_delta step delta)) events)
  unfolding with_step fold_events
  text_packet-Replayable (some s) step delta events h =
      AllReplayable-set_event s _ events (text-Replayable s delta (get_event s events)) h
  text_packet-Replayable none (some s) delta events h =
      AllReplayable-set_event s _ events (text-Replayable s delta (get_event s events)) h
  text_packet-Replayable none none delta events h = h

  packet-Replayable :
      (p : Packet) (a : StepAssigner) (events : Events) (said : Text)
      → Good a events said
      → PacketAccepted p
      → AllReplayable events
      → AllReplayable (fold_events (with_step (step_for p a).0 p) events)
  unfolding step_for with_step fold_events
  packet-Replayable (text_delta step delta) a events said g p h =
      text_packet-Replayable (step_for (text_delta step delta) a).0 step delta events h
  packet-Replayable (tool_start step id name) a events said g p h =
      let (s, at, k) = tool-Replayable id name _ a events said g (start-Fits id name p.0 p.1) h in
      rw at k
  packet-Replayable (tool_call step id name arguments) a events said g p h =
      let (s, at, k) =
        tool-Replayable id name _ a events said g (call-Fits id name arguments p.0 p.1) h in
      rw at k
  packet-Replayable (tool_end step id name status result err) a events said g p h =
      let (s, at, k) =
        tool-Replayable id name _ a events said g (end-Fits id name status result err p.0 p.1) h in
      rw at k
  packet-Replayable (start m s) a events said g p h = h
  packet-Replayable (finish m) a events said g p h = h
  packet-Replayable (error code message) a events said g p h = h

  pub run-Replayable :
      (packets : List Packet) (a : StepAssigner) (st : StreamState) (said : Text)
      → Good a st.events said
      → All PacketAccepted packets
      → AllReplayable st.events
      → AllReplayable (run_packets packets a st).1.events
  unfolding run_packets fold
  run-Replayable [] a st said g p h = h
  run-Replayable (x ∷ packets) a st said g p h =
      run-Replayable packets (step_for x a).1 (fold (with_step (step_for x a).0 x) st)
        (said ++ streamed_text (x ∷ [])) (packet-Good x a st.events said g) p.1
        (packet-Replayable x a st.events said g p.0 h)

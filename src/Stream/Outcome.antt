-- ===== src/Stream/Outcome.antt =====
-- When `stream_turn` of app/api/_chat_stream.py stores a row, and what then ends the stream.
use me.Base.{
  ℕ, Bool, true, false, not, ◌&&◌, ◌||◌, ◌≡◌, refl, ◌∙◌, ap, Option, none, some, List, [], ◌∷◌,
  ◌++◌, ◌==◌, any, is_some, is_empty, Option-cases, Bool-cases, inl, inr, arith, Text,
}
use me.Stream.{Packet, start, text_delta, finish, error, tool_start, tool_call, tool_end, Event}
use me.Stream.Steps.{
  Kind, text, tool, StepAssigner, new_assigner, lookup_step, step_for, with_step, tool_step,
}
use me.Stream.State.{
  StreamState, Events, new_state, fold, fold_events, set_event, is_error, should_persist,
}
use me.Stream.Turn.{run_packets, end_turn, stream_turn}

-- A packet that becomes part of the stored turn.
unfoldable pub is_content : Packet → Bool
is_content (text_delta step delta) = true
is_content (tool_start step id name) = true
is_content (tool_call step id name arguments) = true
is_content (tool_end step id name status result err) = true
is_content p = false

abbrev pub is_finish : Packet → Bool
is_finish (finish id) = true
is_finish p = false

abbrev is_open : Option Kind → Option ℕ → Bool
is_open (some text) none = false
is_open last step = true

-- The text step is there while the last packet is text.
abbrev IsReady : StepAssigner → Type 0
IsReady a = is_open a.last_kind a.text_step ≡ true

is_empty-set_event : (s : ℕ) (e : Event) (events : Events) → is_empty (set_event s e events) ≡ false
unfolding set_event
is_empty-set_event s e [] = refl
is_empty-set_event s e ((k, e') ∷ events) = elim (Bool-cases (k == s)) [
  | inl at ↦ rw at refl
  | inr past ↦ rw past refl
]

-- What one packet does.
record OnePacket (p : Packet) (a : StepAssigner) (st : StreamState) : Type 0 where
  ready : IsReady (step_for p a).1
  content :
      is_empty (fold (with_step (step_for p a).0 p) st).events
      ≡ (is_empty st.events && not (is_content p))
  failed : (fold (with_step (step_for p a).0 p) st).saw_error ≡ (is_error p || st.saw_error)
  same : is_finish (with_step (step_for p a).0 p) ≡ is_finish p

empty_and : (b : Bool) → b ≡ (b && true)
empty_and true = refl
empty_and false = refl

set_not_empty :
    (s : ℕ) (e : Event) (events : Events)
    → is_empty (set_event s e events) ≡ (is_empty events && false)
set_not_empty s e [] = is_empty-set_event s e []
set_not_empty s e (x ∷ events) = is_empty-set_event s e (x ∷ events)

-- A record that says the step of a packet is some number, and the assigner after it is ready.
abbrev IsAssigned : Packet → StepAssigner → Type 0
IsAssigned p a = (s : ℕ) × ((step_for p a).0 ≡ some s) × IsReady (step_for p a).1

text-IsAssigned :
    (step : Option ℕ) (delta : Text) (k : Option Kind) (t : Option ℕ) (n : ℕ) (l : List (Text × ℕ))
    → is_open k t ≡ true
    → IsAssigned
        (text_delta step delta)
        (record { next = n; text_step = t; tool_steps = l; last_kind = k })
unfolding step_for
text-IsAssigned step delta (some text) (some s) n l h = (s, refl, refl)
text-IsAssigned step delta (some text) none n l h = absurd (ground arith)
text-IsAssigned step delta (some tool) t n l h = (n, refl, refl)
text-IsAssigned step delta none t n l h = (n, refl, refl)

tool-IsAssigned :
    (id : Text) (a : StepAssigner)
    → (s : ℕ) × ((tool_step id a).0 ≡ some s) × IsReady (tool_step id a).1
unfolding tool_step
tool-IsAssigned id a = elim (Option-cases (lookup_step id a.tool_steps)) [
  | inl eq ↦ rw eq (a.next, refl, refl)
  | inr (s, eq) ↦ rw eq (s, refl, refl)
]

one_content :
    (p : Packet) (a : StepAssigner) (st : StreamState)
    → is_content p ≡ true
    → IsAssigned p a
    → OnePacket p a st
unfolding with_step fold fold_events is_content
one_content (text_delta step delta) a st c (s, eq, r) = record {
  ready = r;
  content = rw eq (set_not_empty s _ st.events);
  failed = rw eq refl;
  same = rw eq refl;
}
one_content (tool_start step id name) a st c (s, eq, r) = record {
  ready = r;
  content = rw eq (set_not_empty s _ st.events);
  failed = rw eq refl;
  same = rw eq refl;
}
one_content (tool_call step id name arguments) a st c (s, eq, r) = record {
  ready = r;
  content = rw eq (set_not_empty s _ st.events);
  failed = rw eq refl;
  same = rw eq refl;
}
one_content (tool_end step id name status result err) a st c (s, eq, r) = record {
  ready = r;
  content = rw eq (set_not_empty s _ st.events);
  failed = rw eq refl;
  same = rw eq refl;
}
one_content p a st c i = absurd (ground arith)

one_packet : (p : Packet) (a : StepAssigner) (st : StreamState) → IsReady a → OnePacket p a st
unfolding step_for with_step fold fold_events is_content
one_packet (start i s) a st h = record {
  ready = h;
  content = empty_and (is_empty st.events);
  failed = refl;
  same = refl;
}
one_packet (finish i) a st h = record {
  ready = h;
  content = empty_and (is_empty st.events);
  failed = refl;
  same = refl;
}
one_packet (error c m) a st h = record {
  ready = h;
  content = empty_and (is_empty st.events);
  failed = refl;
  same = refl;
}
one_packet (text_delta step delta) a st h =
    one_content (text_delta step delta) a st refl
      (text-IsAssigned step delta a.last_kind a.text_step a.next a.tool_steps h)
one_packet (tool_start step id name) a st h =
    one_content (tool_start step id name) a st refl (tool-IsAssigned id a)
one_packet (tool_call step id name arguments) a st h =
    one_content (tool_call step id name arguments) a st refl (tool-IsAssigned id a)
one_packet (tool_end step id name status result err) a st h =
    one_content (tool_end step id name status result err) a st refl (tool-IsAssigned id a)

-- What the whole run does.
record Run (packets : List Packet) (a : StepAssigner) (st : StreamState) : Type 0 where
  content :
      is_empty (run_packets packets a st).1.events
      ≡ (is_empty st.events && not (any is_content packets))
  failed : (run_packets packets a st).1.saw_error ≡ (any is_error packets || st.saw_error)
  same : any is_finish (run_packets packets a st).0 ≡ any is_finish packets

run : (packets : List Packet) (a : StepAssigner) (st : StreamState) → IsReady a → Run packets a st
unfolding run_packets any
run [] a st h = record { content = empty_and (is_empty st.events); failed = refl; same = refl }
run (p ∷ packets) a st h =
    let one = one_packet p a st h in
    let rest = run packets (step_for p a).1 (fold (with_step (step_for p a).0 p) st) one.ready in
    record { content = ground arith; failed = ground arith; same = ground arith }

pub any-append :
    {A : Type 0} (f : A → Bool) (xs ys : List A) → any f (xs ++ ys) ≡ (any f xs || any f ys)
unfolding any
any-append f [] ys = refl
any-append f (x ∷ xs) ys = ground (arith, any-append f xs ys)

end_turn-stored :
    (m c : ℕ) (stored : Bool) (st : StreamState)
    → is_some (end_turn m c stored st).1 ≡ (not st.saw_error && not (is_empty st.events) && stored)
unfolding end_turn should_persist
end_turn-stored m c stored st = ground arith

end_turn-finish :
    (m c : ℕ) (stored : Bool) (st : StreamState)
    → any is_finish (end_turn m c stored st).0 ≡ is_some (end_turn m c stored st).1
unfolding end_turn should_persist any
end_turn-finish m c stored st = ground arith

-- A row is stored exactly when the insert goes through, no packet of the agent is an error, and one is text or a tool packet.
pub stream_turn-stored :
    (assistant_message_id session_id client_message_id : ℕ) (stored : Bool) (packets : List Packet)
    → is_some (stream_turn assistant_message_id session_id client_message_id stored packets).1
      ≡ (not (any is_error packets) && any is_content packets && stored)
unfolding stream_turn any
stream_turn-stored m s c stored packets =
    let r = run packets new_assigner new_state refl in
    let e = end_turn-stored m c stored (run_packets packets new_assigner new_state).1 in
    ground arith

-- When the agent sends no finish packet, the stream has one just when a row is stored.
pub any-stream_turn :
    (assistant_message_id session_id client_message_id : ℕ) (stored : Bool) (packets : List Packet)
    → any is_finish packets ≡ false
    → any is_finish (stream_turn assistant_message_id session_id client_message_id stored packets).0
      ≡ is_some (stream_turn assistant_message_id session_id client_message_id stored packets).1
unfolding stream_turn any
any-stream_turn m s c stored packets h =
    let r = run packets new_assigner new_state refl in
    let wire = (run_packets packets new_assigner new_state).0 in
    let st = (run_packets packets new_assigner new_state).1 in
    any-append is_finish wire (end_turn m c stored st).0
    ∙ rw (r.same, h) (end_turn-finish m c stored st)

-- What ends the stream: the finish packet of the stored row, and nothing when no row is stored.
abbrev pub ending : (assistant_message_id : ℕ) → Bool → List Packet
ending assistant_message_id true = finish assistant_message_id ∷ []
ending assistant_message_id false = []

end_turn-ending :
    (m c : ℕ) (stored : Bool) (st : StreamState)
    → (end_turn m c stored st).0 ≡ ending m (is_some (end_turn m c stored st).1)
unfolding end_turn should_persist
end_turn-ending m c stored st = ground arith

-- When the agent sends no finish packet of its own, the stream is the start packet with the ids of the
-- assistant's message and of the session, some packets without a finish, and after them one finish packet with the id of the assistant's message, which is the last of the
-- stream, when a row is stored, and nothing when none is.
pub stream_turn-finish :
    (assistant_message_id session_id client_message_id : ℕ) (stored : Bool) (packets : List Packet)
    → any is_finish packets ≡ false
    → (wire : List Packet) × (any is_finish wire ≡ false)
      × ((stream_turn assistant_message_id session_id client_message_id stored packets).0
          ≡ start assistant_message_id session_id ∷ wire
            ++ ending assistant_message_id (
                is_some
                  (stream_turn assistant_message_id session_id client_message_id stored packets).1))
unfolding stream_turn
stream_turn-finish m s c stored packets h =
    let (wire, st) = run_packets packets new_assigner new_state in
    (
      wire,
      (run packets new_assigner new_state refl).same ∙ h,
      ap (λ e. start m s ∷ wire ++ e) (end_turn-ending m c stored st),
    )

-- The loop over the packets adds no finish packet.
pub run_packets-finish :
    (packets : List Packet)
    → any is_finish (run_packets packets new_assigner new_state).0 ≡ any is_finish packets
run_packets-finish packets = (run packets new_assigner new_state refl).same

-- ===== src/Stream/Content.antt =====
-- The dict `events` of `StreamState` in app/api/_chat_stream.py, in the order of its steps.
use me.Base.{
  ℕ, ◌<◌, ◌≤◌, ◌≡◌, refl, ap, ◌∙◌, true, none, [], ◌∷◌, ◌++◌, arith, ◌==◌, inl, inr, Bool-cases,
  is_some,
}
use me.Stream.{Event}
use me.Stream.State.{Events, get_event, set_event, insert_step, sort_steps}

-- The steps in use are below the next one, and ascend in the order of insertion.
abbrev pub AllBelow : ℕ → Events → Type 0
AllBelow n [] = Unit
AllBelow n (x ∷ events) = (x.0 < n) × AllBelow n events

abbrev pub AllAbove : ℕ → Events → Type 0
AllAbove n [] = Unit
AllAbove n (x ∷ events) = (n < x.0) × AllAbove n events

abbrev pub Ascending : Events → Type 0
Ascending [] = Unit
Ascending (x ∷ events) = AllAbove x.0 events × Ascending events

insert_step_first :
    (x : ℕ × Event) (events : Events) → AllAbove x.0 events → insert_step x events ≡ x ∷ events
unfolding insert_step
insert_step_first x [] h = refl
insert_step_first x (y ∷ events) h = ground arith

-- Sorting leaves such a list as it is.
pub sort_steps_sorted : (events : Events) → Ascending events → sort_steps events ≡ events
unfolding sort_steps
sort_steps_sorted [] h = refl
sort_steps_sorted (x ∷ events) h =
    ap (insert_step x) (sort_steps_sorted events h.1) ∙ insert_step_first x events h.0

pub AllBelow-weaken : (m n : ℕ) (events : Events) → m ≤ n → AllBelow m events → AllBelow n events
AllBelow-weaken m n [] h k = tt
AllBelow-weaken m n (x ∷ events) h k = (omega arith, AllBelow-weaken m n events h k.1)

pub get_event_new : (s : ℕ) (events : Events) → AllBelow s events → get_event s events ≡ none
unfolding get_event
get_event_new s [] h = refl
get_event_new s (x ∷ events) h = ground (arith, get_event_new s events h.1)

pub set_event_new :
    (s : ℕ) (e : Event) (events : Events)
    → AllBelow s events
    → set_event s e events ≡ events ++ (s, e) ∷ []
unfolding set_event
set_event_new s e [] h = refl
set_event_new s e (x ∷ events) h = ground (arith, set_event_new s e events h.1)

pub AllBelow-append :
    (n s : ℕ) (e : Event) (events : Events)
    → s < n
    → AllBelow n events
    → AllBelow n (events ++ (s, e) ∷ [])
AllBelow-append n s e [] h k = (h, tt)
AllBelow-append n s e (x ∷ events) h k = (k.0, AllBelow-append n s e events h k.1)

AllAbove-append :
    (n s : ℕ) (e : Event) (events : Events)
    → n < s
    → AllAbove n events
    → AllAbove n (events ++ (s, e) ∷ [])
AllAbove-append n s e [] h k = (h, tt)
AllAbove-append n s e (x ∷ events) h k = (k.0, AllAbove-append n s e events h k.1)

pub Ascending-append :
    (s : ℕ) (e : Event) (events : Events)
    → AllBelow s events
    → Ascending events
    → Ascending (events ++ (s, e) ∷ [])
Ascending-append s e [] b a = (tt, tt)
Ascending-append s e (x ∷ events) b a =
    (AllAbove-append x.0 s e events b.0 a.0, Ascending-append s e events b.1 a.1)

-- Writing at a step that is there keeps the steps.
pub AllBelow-set_event :
    (n s : ℕ) (e : Event) (events : Events)
    → is_some (get_event s events) ≡ true
    → AllBelow n events
    → AllBelow n (set_event s e events)
unfolding get_event set_event
AllBelow-set_event n s e [] h k = (absurd (ground arith))
AllBelow-set_event n s e (x ∷ events) h k = elim (Bool-cases (x.0 == s)) [
  | inl t ↦ rw t k
  | inr f ↦ rw f (k.0, AllBelow-set_event n s e events (ground arith) k.1)
]

AllAbove-set_event :
    (n s : ℕ) (e : Event) (events : Events)
    → is_some (get_event s events) ≡ true
    → AllAbove n events
    → AllAbove n (set_event s e events)
unfolding get_event set_event
AllAbove-set_event n s e [] h k = (absurd (ground arith))
AllAbove-set_event n s e (x ∷ events) h k = elim (Bool-cases (x.0 == s)) [
  | inl t ↦ rw t k
  | inr f ↦ rw f (k.0, AllAbove-set_event n s e events (ground arith) k.1)
]

pub Ascending-set_event :
    (s : ℕ) (e : Event) (events : Events)
    → is_some (get_event s events) ≡ true
    → Ascending events
    → Ascending (set_event s e events)
unfolding get_event set_event
Ascending-set_event s e [] h k = (absurd (ground arith))
Ascending-set_event s e (x ∷ events) h k = elim (Bool-cases (x.0 == s)) [
  | inl t ↦ rw t k
  | inr f ↦ rw f (
    AllAbove-set_event x.0 s e events (ground arith) k.0,
    Ascending-set_event s e events (ground arith) k.1,
  )
]

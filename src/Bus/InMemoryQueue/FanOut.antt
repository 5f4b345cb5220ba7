-- ===== src/Bus/InMemoryQueue/FanOut.antt =====
-- src/bus/in_memory_queue.rs: what each subscriber receives of the log.
use sourced_rust.Prelude.{
  ℕ, zero, suc, ◌+◌, ◌≤◌, Option, none, some, List, [], ◌∷◌, ◌++◌, get_elem?, length, drop, ◌≡◌,
  refl, sym, ap, ◌∙◌, arith, unwrap_or, length-append, append_assoc, append-nil, Option-cases, inl,
  inr,
}
use sourced_rust.Bus.{Event}
use sourced_rust.Bus.InMemoryQueue.{Shared, Handle, publish_batch, poll_once, poll}

abbrev pub option_list : Option Event → List Event
option_list none = []
option_list (some e) = e ∷ []

pub drop-get_elem :
    (es : List Event) (n : ℕ) (e : Event)
    → get_elem? es n ≡ some e
    → (drop n es ≡ e ∷ drop (suc n) es) × (suc n ≤ length es)
drop-get_elem [] n e h = cc
drop-get_elem (x ∷ es) zero e h = (ap (λ o. unwrap_or o x ∷ es) h, omega arith)
drop-get_elem (x ∷ es) (suc n) e h =
    let (eq, le) = drop-get_elem es n e h in (eq, omega (arith, le))

pub get_elem-none : (es : List Event) (n : ℕ) → get_elem? es n ≡ none → length es ≤ n
get_elem-none [] n h = omega arith
get_elem-none (x ∷ es) zero h = cc
get_elem-none (x ∷ es) (suc n) h = omega (arith, get_elem-none es n h)

poll-some :
    (waits : List (List Event)) (s : Shared) (h : Handle) (e : Event)
    → get_elem? s.log h.position ≡ some e
    → poll waits s h ≡ (some e, s, record h { position = h.position + 1 })
unfolding poll poll_once
poll-some [] s h e eq = ground (arith, eq)
poll-some (es ∷ rest) s h e eq = ground (arith, eq)

poll-last :
    (s : Shared) (h : Handle) → get_elem? s.log h.position ≡ none → poll [] s h ≡ (none, s, h)
unfolding poll poll_once
poll-last s h eq = ground (arith, eq)

poll-sleeps :
    (es : List Event) (rest : List (List Event)) (s : Shared) (h : Handle)
    → get_elem? s.log h.position ≡ none
    → poll (es ∷ rest) s h ≡ poll rest (publish_batch s es) h
unfolding poll poll_once
poll-sleeps es rest s h eq = ground (arith, eq)

-- What a call made of the log and of what the handle has not read. It returns the next unread event,
-- and where it returns none, all of the log is read.
pub record Polled (s : Shared) (h : Handle) (x : Option Event × Shared × Handle) : Type 0 where
  pub arrived : List Event
  pub log : x.1.log ≡ s.log ++ arrived
  pub queues : x.1.queues ≡ s.queues
  pub unread : drop h.position x.1.log ≡ option_list x.0 ++ drop x.2.position x.1.log
  pub position : x.2.position ≡ h.position + length (option_list x.0)
  pub within : x.2.position ≤ length x.1.log
  pub all_read : x.0 ≡ none → x.2.position ≡ length x.1.log

some-Polled :
    (s : Shared) (h : Handle) (e : Event)
    → get_elem? s.log h.position ≡ some e
    → Polled s h (some e, s, record h { position = h.position + 1 })
some-Polled s h e eq = record {
  arrived = [];
  log = sym (append-nil s.log);
  queues = refl;
  unread = (drop-get_elem s.log h.position e eq).0 ∙ ap (λ n. e ∷ drop n s.log) next;
  position = omega arith;
  within = omega (arith, (drop-get_elem s.log h.position e eq).1);
  all_read = λ n. cc n;
}
  where
    next : suc h.position ≡ h.position + 1
    next = omega arith

none-Polled :
    (s : Shared) (h : Handle)
    → get_elem? s.log h.position ≡ none
    → h.position ≤ length s.log
    → Polled s h (none, s, h)
none-Polled s h eq le = record {
  arrived = [];
  log = sym (append-nil s.log);
  queues = refl;
  unread = refl;
  position = omega arith;
  within = le;
  all_read = λ n. omega (arith, get_elem-none s.log h.position eq, le);
}

-- A sleep in which `es` arrived comes first.
after_sleep :
    (es : List Event) (s : Shared) (h : Handle) (x : Option Event × Shared × Handle)
    → Polled (publish_batch s es) h x
    → Polled s h x
unfolding publish_batch
after_sleep es s h x p = record {
  arrived = es ++ p.arrived;
  log = p.log ∙ append_assoc s.log es p.arrived;
  queues = p.queues;
  unread = p.unread;
  position = p.position;
  within = p.within;
  all_read = p.all_read;
}

still-within :
    (es : List Event) (s : Shared) (h : Handle)
    → h.position ≤ length s.log
    → h.position ≤ length (publish_batch s es).log
unfolding publish_batch
still-within es s h le = omega (arith, le, length-append s.log es)

pub poll-Polled :
    (waits : List (List Event)) (s : Shared) (h : Handle)
    → h.position ≤ length s.log
    → Polled s h (poll waits s h)
poll-Polled [] s h le = elim (Option-cases (get_elem? s.log h.position)) [
  | inr (e, eq) ↦ rw (poll-some [] s h e eq) (some-Polled s h e eq)
  | inl eq ↦ rw (poll-last s h eq) (none-Polled s h eq le)
]
poll-Polled (es ∷ rest) s h le = elim (Option-cases (get_elem? s.log h.position)) [
  | inr (e, eq) ↦ rw (poll-some (es ∷ rest) s h e eq) (some-Polled s h e eq)
  | inl eq ↦ rw (poll-sleeps es rest s h eq) (
      after_sleep es s h (poll rest (publish_batch s es) h)
        (poll-Polled rest (publish_batch s es) h (still-within es s h le)))
]

-- ===== src/Bus/InMemoryQueue/Receiving.antt =====
-- src/bus/in_memory_queue.rs: what a receiver of some event types delivers.
use sourced_rust.Prelude.{
  ◌≤◌, true, false, if◌then◌else◌, String, Option, none, some, List, [], ◌∷◌, ◌++◌, filter, length,
  drop, ◌≡◌, refl, sym, ap, ◌∙◌, arith, length-append, drop-append, append_assoc, append-nil, inl,
  inr, Bool-cases,
}
use sourced_rust.Bus.{Event}
use sourced_rust.Bus.InMemoryQueue.{Shared, Handle, poll, has_type, recv}
use sourced_rust.Bus.InMemoryQueue.FanOut.{option_list, Polled, poll-Polled}

-- What a call of a receiver made of the log and of the unread events of its types.
pub record Received (types : List String) (s : Shared) (h : Handle)
    (x : Option Event × Shared × Handle) : Type 0 where
  pub arrived : List Event
  pub log : x.1.log ≡ s.log ++ arrived
  pub within : x.2.position ≤ length x.1.log
  pub matched : (e : Event) → x.0 ≡ some e → has_type types e ≡ true
  pub unread :
      filter (has_type types) (drop h.position x.1.log)
      ≡ option_list x.0 ++ filter (has_type types) (drop x.2.position x.1.log)

-- What `recv` makes of an answer of `poll`.
abbrev after_poll :
    List String
    → List (List (List Event))
    → Option Event × Shared × Handle
    → Option Event × Shared × Handle
after_poll types rest (found, s', h') =
    let later = recv types rest s' h' in
    elim found [
      | none ↦ (none, s', h')
      | some e ↦ if has_type types e then (some e, s', h') else later
    ]

-- An event that was skipped, and what came after it.
skip-Received :
    (types : List String) (s : Shared) (h : Handle) (e : Event) (s' : Shared) (h' : Handle)
    (x : Option Event × Shared × Handle)
    → h.position ≤ length s.log
    → Polled s h (some e, s', h')
    → has_type types e ≡ false
    → Received types s' h' x
    → Received types s h x
skip-Received types s h e s' h' x le p skips q = record {
  arrived = p.arrived ++ q.arrived;
  log = q.log ∙ ap (λ l. l ++ q.arrived) p.log ∙ append_assoc s.log p.arrived q.arrived;
  within = q.within;
  matched = q.matched;
  unread = ap (filter (has_type types)) whole ∙ rw skips q.unread;
}
  where
    longer : h.position ≤ length s'.log
    longer = omega (arith, le, ap length p.log, length-append s.log p.arrived)

    whole : drop h.position x.1.log ≡ e ∷ drop h'.position x.1.log
    whole =
        ap (drop h.position) q.log
        ∙ drop-append h.position s'.log q.arrived longer
        ∙ ap (λ l. l ++ q.arrived) p.unread
        ∙ ap (λ l. e ∷ l) (sym (drop-append h'.position s'.log q.arrived p.within))
        ∙ ap (λ l. e ∷ drop h'.position l) (sym q.log)

after_poll-Received :
    (types : List String) (rest : List (List (List Event))) (s : Shared) (h : Handle)
    (x : Option Event × Shared × Handle)
    → h.position ≤ length s.log
    → Polled s h x
    → ((s' : Shared) (h' : Handle)
        → h'.position ≤ length s'.log
        → Received types s' h' (recv types rest s' h'))
    → Received types s h (after_poll types rest x)
after_poll-Received types rest s h (none, s', h') le p later = record {
  arrived = p.arrived;
  log = p.log;
  within = p.within;
  matched = λ e eq. cc eq;
  unread = ap (filter (has_type types)) p.unread;
}
after_poll-Received types rest s h (some e, s', h') le p later =
    elim (Bool-cases (has_type types e)) [
      | inl matches ↦ rw matches (record {
        arrived = p.arrived;
        log = p.log;
        within = p.within;
        matched = λ e' eq. cc (eq, matches);
        unread = ap (filter (has_type types)) p.unread ∙ rw matches refl;
      })
      | inr skips ↦ rw skips (
          skip-Received types s h e s' h' (recv types rest s' h') le p skips (later s' h' p.within))
    ]

-- A receiver delivers the events of its types in the order of the log and none of them twice: what it
-- returns is an event of its types, the next one that its handle had not read, and where it returns
-- none, the events that it went past are of other types. This holds whatever arrives while it waits,
-- for a handle that stands within the log.
pub recv-Received :
    (types : List String) (rounds : List (List (List Event))) (s : Shared) (h : Handle)
    → h.position ≤ length s.log
    → Received types s h (recv types rounds s h)
unfolding recv
recv-Received types [] s h le = record {
  arrived = [];
  log = sym (append-nil s.log);
  within = le;
  matched = λ e eq. cc eq;
  unread = refl;
}
recv-Received types (waits ∷ rest) s h le =
    after_poll-Received types rest s h (poll waits s h) le (poll-Polled waits s h le)
      (recv-Received types rest)

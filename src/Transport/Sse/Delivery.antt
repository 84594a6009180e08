-- ===== src/Transport/Sse/Delivery.antt =====
-- The queue's bound, the end of the stream, and what reaches the consumer.
use netherbrain.Prelude.{
  ℕ, zero, suc, ◌≤◌, ◌<◌, true, false, List, [], ◌∷◌, ◌++◌, ◌≡◌, refl, sym, ap, subst, ◌∙◌, arith,
  if◌then◌else◌, Bool-cases, inl, inr, length, length-append, drop, ◌⊎◌,
}
use netherbrain.Events.{BaseEvent}
use netherbrain.Transport.Sse.{
  Item, event, sentinel, Sse, init, full, send, put_sentinel, close, receive, consume, Call, sends,
  closes, consumes, step, run,
}

abbrev pub EndsInSentinel : List Item → Type 0
EndsInSentinel q = (front : List Item) × (q ≡ front ++ (sentinel ∷ []))

-- A queue of a positive size is within its bound, and once the transport is closed either the
-- consumer has ended or the last item of the queue is the sentinel.
pub record IsBounded (t : Sse) : Type 0 where
  pub positive : 0 < t.max_queue_size
  pub bounded : length t.queue ≤ t.max_queue_size
  pub closing : t.closed ≡ true → (t.ended ≡ true) ⊎ EndsInSentinel t.queue

send-closed : (e : BaseEvent) (t : Sse) → t.closed ≡ true → send e t ≡ t
unfolding send
send-closed e t h = ground arith

closed-send : (e : BaseEvent) (t : Sse) → (send e t).closed ≡ t.closed
unfolding send
closed-send e t = ground arith

send-IsBounded : (e : BaseEvent) (t : Sse) → IsBounded t → IsBounded (send e t)
unfolding send
send-IsBounded e t v = record {
  positive = ground (arith, v.positive);
  bounded = ground (arith, v.bounded, v.positive, length-append t.queue (event e ∷ []));
  closing = λ h.
      let shut : t.closed ≡ true = sym (closed-send e t) ∙ h in
      rw (send-closed e t shut) (v.closing shut);
}

-- The sentinel goes in behind this, after the first item is discarded where the queue is full.
abbrev kept : Sse → List Item
kept t = if full t then drop 1 t.queue else t.queue

put_sentinel-kept :
    (t : Sse) (q : List Item)
    → t.queue ≡ q
    → 0 < t.max_queue_size
    → length t.queue ≤ t.max_queue_size
    → put_sentinel t ≡ record t { queue = kept t ++ (sentinel ∷ []) }
unfolding put_sentinel full
put_sentinel-kept t [] e pos b = ground arith
put_sentinel-kept t (x ∷ q) e pos b = ground arith

length-kept :
    (t : Sse) (q : List Item)
    → t.queue ≡ q
    → 0 < t.max_queue_size
    → length t.queue ≤ t.max_queue_size
    → length (kept t) < t.max_queue_size
unfolding full
length-kept t [] e pos b = ground arith
length-kept t (x ∷ q) e pos b = ground arith

put_sentinel-IsBounded :
    (t : Sse)
    → 0 < t.max_queue_size
    → length t.queue ≤ t.max_queue_size
    → IsBounded (put_sentinel t)
put_sentinel-IsBounded t pos b = rw (put_sentinel-kept t t.queue refl pos b) (record {
  positive = pos;
  bounded = omega (arith, length-append (kept t) (sentinel ∷ []), length-kept t t.queue refl pos b);
  closing = λ h. inr (kept t, refl);
})

close_open : (t : Sse) → t.closed ≡ false → close t ≡ put_sentinel (record t { closed = true })
unfolding close
close_open t h = ground arith

close_closed : (t : Sse) → t.closed ≡ true → close t ≡ t
unfolding close
close_closed t h = ground arith

close-IsBounded : (t : Sse) → IsBounded t → IsBounded (close t)
close-IsBounded t v = elim (Bool-cases t.closed) [
  | inl h ↦ subst IsBounded (sym (close_closed t h)) v
  | inr h ↦
      subst IsBounded (sym (close_open t h))
        (put_sentinel-IsBounded (record t { closed = true }) v.positive v.bounded)
]

consume_ended : (t : Sse) → t.ended ≡ true → consume t ≡ t
unfolding consume
consume_ended t h = ground arith

consume_empty : (t : Sse) → t.queue ≡ [] → consume t ≡ t
unfolding consume
consume_empty t h = ground arith

consume_item :
    (t : Sse) (item : Item) (rest : List Item)
    → t.ended ≡ false
    → t.queue ≡ item ∷ rest
    → consume t ≡ receive item (record t { queue = rest })
unfolding consume
consume_item t item rest h e = ground arith

-- Behind the first item of a queue that ends in the sentinel, unless it is the sentinel.
EndsInSentinel-tail :
    (item : Item) (rest : List Item)
    → EndsInSentinel (item ∷ rest)
    → (item ≡ sentinel) ⊎ EndsInSentinel rest
EndsInSentinel-tail item rest ([], e) = inl (ground arith)
EndsInSentinel-tail item rest (x ∷ front, e) = inr (front, ground arith)

receive-IsBounded :
    (t : Sse) (item : Item) (rest : List Item)
    → t.queue ≡ item ∷ rest
    → t.ended ≡ false
    → IsBounded t
    → IsBounded (receive item (record t { queue = rest }))
unfolding receive
receive-IsBounded t sentinel rest e live v = record {
  positive = v.positive;
  bounded = ground (arith, v.bounded);
  closing = λ h. inl refl;
}
receive-IsBounded t (event x) rest e live v = record {
  positive = v.positive;
  bounded = ground (arith, v.bounded);
  closing = λ h. elim (v.closing h) [
    | inl ended ↦ absurd (cc)
    | inr last ↦ elim (EndsInSentinel-tail (event x) rest (subst EndsInSentinel e last)) [
      | inl same ↦ absurd (ground arith)
      | inr tail ↦ inr tail
    ]
  ];
}

queue-cases : (q : List Item) → (q ≡ []) ⊎ ((item : Item) × (rest : List Item) × (q ≡ item ∷ rest))
queue-cases [] = inl refl
queue-cases (item ∷ rest) = inr (item, rest, refl)

consume-IsBounded : (t : Sse) → IsBounded t → IsBounded (consume t)
consume-IsBounded t v = elim (Bool-cases t.ended) [
  | inl h ↦ subst IsBounded (sym (consume_ended t h)) v
  | inr h ↦ elim (queue-cases t.queue) [
    | inl e ↦ subst IsBounded (sym (consume_empty t e)) v
    | inr (item, rest, e) ↦
        subst IsBounded (sym (consume_item t item rest h e)) (receive-IsBounded t item rest e h v)
  ]
]

step-IsBounded : (t : Sse) (c : Call) → IsBounded t → IsBounded (step t c)
unfolding step
step-IsBounded t (sends e) v = send-IsBounded e t v
step-IsBounded t closes v = close-IsBounded t v
step-IsBounded t consumes v = consume-IsBounded t v

-- From a transport in a valid state, no sequence of sends, closes and reads makes the queue
-- longer than its bound, and whenever the transport is closed, the consumer has ended or the last
-- item of the queue is the sentinel.
pub run-IsBounded : (cs : List Call) (t : Sse) → IsBounded t → IsBounded (run t cs)
unfolding run
run-IsBounded [] t v = v
run-IsBounded (c ∷ cs) t v = run-IsBounded cs (step t c) (step-IsBounded t c v)

pub init-IsBounded : (n : ℕ) → 0 < n → IsBounded (init n)
init-IsBounded n h = record { positive = h; bounded = omega arith; closing = λ e. absurd (cc) }

-- The consumer's turns, `n` of them.
abbrev pub reads : ℕ → List Call
reads zero = []
reads (suc n) = consumes ∷ reads n

reads_ended : (n : ℕ) (t : Sse) → t.ended ≡ true → (run t (reads n)).ended ≡ true
unfolding run step
reads_ended zero t h = h
reads_ended (suc n) t h =
    subst (λ u. (run u (reads n)).ended ≡ true) (sym (consume_ended t h)) (reads_ended n t h)

queue-receive :
    (item : Item) (rest : List Item) (t : Sse)
    → (receive item (record t { queue = rest })).queue ≡ rest
unfolding receive
queue-receive sentinel rest t = refl
queue-receive (event x) rest t = refl

reads_end :
    (q : List Item) (t : Sse)
    → t.queue ≡ q
    → EndsInSentinel q
    → (run t (reads (length q))).ended ≡ true
unfolding run step receive
reads_end [] t e ([], s) = absurd (ground arith)
reads_end [] t e (x ∷ front, s) = absurd (ground arith)
reads_end (item ∷ rest) t e s = elim (Bool-cases t.ended) [
  | inl h ↦ reads_ended (suc (length rest)) t h
  | inr h ↦
      subst (λ u. (run u (reads (length rest))).ended ≡ true) (sym (consume_item t item rest h e))
        (elim (EndsInSentinel-tail item rest s) [
          | inl same ↦
              reads_ended (length rest) (receive item (record t { queue = rest }))
                (ap (λ i. (receive i (record t { queue = rest })).ended) same)
          | inr tail ↦
              reads_end rest (receive item (record t { queue = rest })) (queue-receive item rest t)
                tail
        ])
]

-- A closed transport in a valid state ends its consumer: after as many reads as the queue has
-- items, the generator has ended.
pub ended-reads :
    (t : Sse) → IsBounded t → t.closed ≡ true → (run t (reads (length t.queue))).ended ≡ true
ended-reads t v h = elim (v.closing h) [
  | inl ended ↦ reads_ended (length t.queue) t ended
  | inr last ↦ reads_end t.queue t refl last
]

-- ===== src/Grpc/Acceptor/Order.antt =====
-- Connections come out of the stream in the order in which they were accepted, and none is lost.
use knot_ops.Prelude.{
  ℕ, ◌≤◌, some, some-eq-some, List, [], ◌∷◌, ◌++◌, length, list_laws, ◌≡◌, ◌≢◌, refl, ap, sym, ◌∙◌,
  subst, arith,
}
use knot_ops.Grpc.Incoming.{IncomingOptions}
use knot_ops.Grpc.Acceptor.{
  Item, mapped_res, Channels, Acceptor, selecting, sending, finished, Listening, Event, accepted,
  given, silent, listening, Step, accept, sent, refused, closed, polled, dropped, aborted, Run,
  start, ◌then◌,
}

-- What the documentation of `mpsc` promises: a queue with a bound.
pub record IsFifo {C M : Type 0} (channels : Channels C M) : Type 0 where
  pub contents : M → List (Item C)
  pub capacity : M → ℕ
  pub created : (n : ℕ) → contents (channels.channel n) ≡ []
  pub bounded : (n : ℕ) → capacity (channels.channel n) ≡ n
  pub sends :
      (m : M) (item : Item C) {m' : M}
      → channels.send m item ≡ some m'
      → (contents m' ≡ contents m ++ (item ∷ []))
        × (capacity m' ≡ capacity m)
        × (length (contents m') ≤ capacity m)
  pub receives :
      (m : M) {item : Item C} {m' : M}
      → channels.recv m ≡ some (item, m')
      → (contents m ≡ item ∷ contents m') × (capacity m' ≡ capacity m)

-- The three ways in which a step moves an item.
module _ {A : Type 0} (all taken queued : List A) where
  taken_in :
      (x : A)
      → all ≡ taken ++ (queued ++ [])
      → all ++ (x ∷ []) ≡ taken ++ [] ++ (queued ++ (x ∷ []))
  taken_in x h = simp (h, list_laws)

  queued_up :
      (x : A)
      → all ≡ taken ++ (queued ++ (x ∷ []))
      → all ++ [] ≡ taken ++ [] ++ ((queued ++ (x ∷ [])) ++ [])
  queued_up x h = simp (h, list_laws)

  given_out :
      (x : A) (hand : List A)
      → all ≡ taken ++ ((x ∷ queued) ++ hand)
      → all ++ [] ≡ taken ++ (x ∷ []) ++ (queued ++ hand)
  given_out x hand h = simp (h, list_laws)

module _ {C : Type 0} where
  -- What a list of events gives, and what it should give.
  unfoldable pub given_of : List (Event C) → List (Item C)
  given_of [] = []
  given_of (accepted conn_res ∷ events) = given_of events
  given_of (given item ∷ events) = item ∷ given_of events
  given_of (silent ∷ events) = given_of events

  unfoldable pub accepted_of : List (Event C) → List (Item C)
  accepted_of [] = []
  accepted_of (accepted conn_res ∷ events) = mapped_res conn_res ∷ accepted_of events
  accepted_of (given item ∷ events) = accepted_of events
  accepted_of (silent ∷ events) = accepted_of events

  given_of-append : (xs ys : List (Event C)) → given_of (xs ++ ys) ≡ given_of xs ++ given_of ys
  unfolding given_of
  given_of-append [] ys = refl
  given_of-append (accepted conn_res ∷ xs) ys = given_of-append xs ys
  given_of-append (given item ∷ xs) ys = ap (λ q. item ∷ q) (given_of-append xs ys)
  given_of-append (silent ∷ xs) ys = given_of-append xs ys

  accepted_of-append :
      (xs ys : List (Event C)) → accepted_of (xs ++ ys) ≡ accepted_of xs ++ accepted_of ys
  unfolding accepted_of
  accepted_of-append [] ys = refl
  accepted_of-append (accepted conn_res ∷ xs) ys =
      ap (λ q. mapped_res conn_res ∷ q) (accepted_of-append xs ys)
  accepted_of-append (given item ∷ xs) ys = accepted_of-append xs ys
  accepted_of-append (silent ∷ xs) ys = accepted_of-append xs ys

  -- What the task has in hand.
  abbrev pub in_hand : Acceptor C → List (Item C)
  in_hand selecting = []
  in_hand (sending item) = item ∷ []
  in_hand finished = []

module _ {C M : Type 0} (channels : Channels C M) (v : IsFifo channels) where
  -- The state of a listener that is not dropped, after some events.
  pub record IsOrdered (opts : IncomingOptions) (events : List (Event C)) (s : Listening C M)
      (m : M) : Type 0 where
    pub order : accepted_of events ≡ given_of events ++ (v.contents m ++ in_hand s.acceptor)
    pub room : length (v.contents m) ≤ opts.buffer_size
    pub bound : v.capacity m ≡ opts.buffer_size
    pub works : s.acceptor ≢ finished

  abbrev IsOpenOrdered : IncomingOptions → List (Event C) → Listening C M → Type 0
  IsOpenOrdered opts events s = (m : M) → s.receiver ≡ some m → IsOrdered opts events s m

  step-IsOrdered :
      (opts : IncomingOptions) (events : List (Event C)) {event : Event C} {s s' : Listening C M}
      → IsOpenOrdered opts events s
      → Step channels s event s'
      → IsOpenOrdered opts (events ++ (event ∷ [])) s'
  unfolding accepted_of given_of
  step-IsOrdered opts events before (accept conn_res) n open_ =
      let i = before n open_ in
      record {
        order =
            rw
              (
                accepted_of-append events (accepted conn_res ∷ []),
                given_of-append events (accepted conn_res ∷ []),
              )
              (taken_in (accepted_of events) (given_of events) (v.contents n) (mapped_res conn_res)
                i.order);
        room = i.room;
        bound = i.bound;
        works = λ e. cc;
      }
  step-IsOrdered opts events before (sent {item} {m} {m'} done) n open_ =
      let i = before m refl in
      let (queued, kept, room) = v.sends m item done in
      let same = some-eq-some open_ in
      subst
        (IsOrdered opts (events ++ (silent ∷ []))
          (record { acceptor = selecting; receiver = some m' }))
        same
        (record {
          order =
              rw
                (
                  accepted_of-append events (silent ∷ []),
                  given_of-append events (silent ∷ []),
                  queued,
                )
                (queued_up (accepted_of events) (given_of events) (v.contents m) item i.order);
          room = omega (arith, i.bound);
          bound = kept ∙ i.bound;
          works = λ e. cc;
        })
  step-IsOrdered opts events before refused n open_ = cc
  step-IsOrdered opts events before closed n open_ = cc
  step-IsOrdered opts events before (polled {acceptor} {item} {m} {m'} found) n open_ =
      let i = before m refl in
      let (front, kept) = v.receives m found in
      let same = some-eq-some open_ in
      subst
        (IsOrdered opts (events ++ (given item ∷ []))
          (record { acceptor = acceptor; receiver = some m' }))
        same
        (record {
          order =
              rw
                (
                  accepted_of-append events (given item ∷ []),
                  given_of-append events (given item ∷ []),
                )
                (given_out (accepted_of events) (given_of events) (v.contents m') item
                  (in_hand acceptor)
                  (i.order ∙ ap (λ c. given_of events ++ (c ++ in_hand acceptor)) front));
          room = omega (arith, i.room, ap length front);
          bound = kept ∙ i.bound;
          works = i.works;
        })
  step-IsOrdered opts events before dropped n open_ = cc
  step-IsOrdered opts events before aborted n open_ = cc

  -- Over a channel that keeps the promises of IsFifo, in every state that a listener can reach
  -- while it is not dropped: what was accepted, in that order, is what the stream has given, then
  -- what the channel holds, then what the accept loop has in hand; the channel holds at most as
  -- many items as the options allow; and the loop has not ended.
  pub run-IsOrdered :
      (opts : IncomingOptions) (events : List (Event C)) (s : Listening C M) (m : M)
      → Run channels opts events s
      → s.receiver ≡ some m
      → IsOrdered opts events s m
  unfolding listening accepted_of given_of
  run-IsOrdered opts events s m start open_ =
      let same = some-eq-some open_ in
      subst (IsOrdered opts [] (listening channels opts)) same (record {
        order = ap (λ c. [] ++ (c ++ [])) (sym (v.created opts.buffer_size));
        room = omega (arith, ap length (v.created opts.buffer_size));
        bound = v.bounded opts.buffer_size;
        works = λ e. cc;
      })
  run-IsOrdered opts events s m (r then step) open_ =
      step-IsOrdered opts _ (λ m1. run-IsOrdered opts _ _ m1 r) step m open_

-- ===== src/Grpc/Acceptor/Delivery.antt =====
-- Every accepted connection can be taken out of the stream.
use knot_ops.Prelude.{
  ◌<◌, some, List, [], ◌∷◌, ◌++◌, length, ◌≡◌, ◌≢◌, refl, ap, subst, sym, ◌∙◌, arith,
}
use knot_ops.Grpc.Incoming.{IncomingOptions}
use knot_ops.Grpc.Acceptor.{
  Item, Channels, Acceptor, selecting, sending, finished, Listening, Event, given, silent, Step,
  sent, polled, Run,
}
use knot_ops.Grpc.Acceptor.Order.{IsFifo, given_of, accepted_of, in_hand, run-IsOrdered}

-- What `mpsc` promises besides: a channel with room takes an item, and one with an item gives it.
pub record IsProductive {C M : Type 0} (channels : Channels C M) (v : IsFifo channels)
    : Type 0 where
  pub takes :
      (m : M) (item : Item C)
      → length (v.contents m) < v.capacity m
      → (m' : M) × (channels.send m item ≡ some m')
  pub gives :
      (m : M) (item : Item C) (rest : List (Item C))
      → v.contents m ≡ item ∷ rest
      → (m' : M) × (channels.recv m ≡ some (item, m'))

module _ {C M : Type 0} (channels : Channels C M) (v : IsFifo channels)
    (p : IsProductive channels v) where
  -- Steps one after another, with what they show.
  pub data Steps : Listening C M → List (Event C) → Listening C M → Type 0 where
    done : {s : Listening C M} → Steps s [] s
    next :
        {s s1 s' : Listening C M} {event : Event C} {events : List (Event C)}
        → Step channels s event s1
        → Steps s1 events s'
        → Steps s (event ∷ events) s'

  -- Steps without a further connection, which give these items.
  abbrev pub Delivers : Listening C M → List (Item C) → Type 0
  Delivers s items =
      (events : List (Event C)) × (s' : Listening C M) × Steps s events s'
      × (accepted_of events ≡ [])
      × (given_of events ≡ items)

  at : Acceptor C → M → Listening C M
  at acceptor m = record { acceptor = acceptor; receiver = some m }

  deliver_hand :
      (acceptor : Acceptor C) (m : M)
      → v.contents m ≡ []
      → 0 < v.capacity m
      → acceptor ≢ finished
      → Delivers (at acceptor m) (in_hand acceptor)
  unfolding at accepted_of given_of
  deliver_hand selecting m empty room works = ([], _, done, refl, refl)
  deliver_hand (sending item) m empty room works =
      let free : length (v.contents m) < v.capacity m = omega (arith, ap length empty) in
      let (m1, sends) = p.takes m item free in
      let one : v.contents m1 ≡ item ∷ [] =
        (v.sends m item sends).0 ∙ ap (λ c. c ++ (item ∷ [])) empty in
      let (m2, receives) = p.gives m1 item [] one in
      (silent ∷ given item ∷ [], _, next (sent sends) (next (polled receives) done), refl, refl)
  deliver_hand finished m empty room works = absurd (works refl)

  deliver_all :
      (acceptor : Acceptor C) (m : M) (queued : List (Item C))
      → v.contents m ≡ queued
      → 0 < v.capacity m
      → acceptor ≢ finished
      → Delivers (at acceptor m) (queued ++ in_hand acceptor)
  unfolding at accepted_of given_of
  deliver_all acceptor m [] empty room works = deliver_hand acceptor m empty room works
  deliver_all acceptor m (item ∷ queued) front room works =
      let (m1, receives) = p.gives m item queued front in
      let (first, kept) = v.receives m receives in
      let rest : v.contents m1 ≡ queued =
        ap (λ c. elim c [ [] ↦ [] | x ∷ xs ↦ xs ]) (sym first ∙ front) in
      let (events, s', steps, quiet, gives) =
        deliver_all acceptor m1 queued rest (omega (arith, kept)) works in
      (given item ∷ events, s', next (polled receives) steps, quiet, ap (λ q. item ∷ q) gives)

  -- Over a channel that keeps the promises of IsFifo and IsProductive and has room for an item, in
  -- every state that a listener can reach while it is not dropped, there are further steps, none
  -- of which accepts a connection, after which the stream has given just what was accepted, in
  -- that order.
  pub run-Delivers :
      (opts : IncomingOptions) (events : List (Event C)) (s : Listening C M) (m : M)
      → Run channels opts events s
      → s.receiver ≡ some m
      → 0 < opts.buffer_size
      → (items : List (Item C)) × Delivers s items × (given_of events ++ items ≡ accepted_of events)
  unfolding at
  run-Delivers opts events s m run open_ room =
      let i = run-IsOrdered channels v opts events s m run open_ in
      let same : at s.acceptor m ≡ s = ap (λ r. record s { receiver = r }) (sym open_) in
      (
        v.contents m ++ in_hand s.acceptor,
        subst (λ q. Delivers q (v.contents m ++ in_hand s.acceptor)) same
            (deliver_all s.acceptor m (v.contents m) refl (omega (arith, i.bound)) i.works),
        sym i.order,
      )

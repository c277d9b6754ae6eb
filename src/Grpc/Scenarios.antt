-- ===== src/Grpc/Scenarios.antt =====
-- A channel that is a list, and what the theorem about the accept loop says of two connections.
use knot_ops.Prelude.{
  Text, codes, is_empty_text, ℕ, ◌≤◌, ◌<◌, ltb, Option, none, some, some-eq-some, List, [], ◌∷◌,
  ◌++◌, length, length-append, ◌≡◌, refl, ap, arith, Bool-cases, if_true, if◌then◌else◌, inl, inr,
  sym, ◌∙◌,
}
use knot_ops.Core.Consts.{unix}
use knot_ops.Sys.Errors.{ok}
use knot_ops.Grpc.Resolver.{SocketNames, resolve, resolve_on, resolve_unix}
use knot_ops.Grpc.Incoming.{IncomingOptions, Server, bind}
use knot_ops.Grpc.Incoming.Bound.{IsListening, bind-IsListening}
use knot_ops.Grpc.Acceptor.{
  Item, mapped_res, Channels, sending, accepted, given, silent, listening, accept, sent, polled,
  Run, start, ◌then◌,
}
use knot_ops.Grpc.Acceptor.Delivery.{IsProductive, Delivers, run-Delivers}
use knot_ops.Grpc.Acceptor.Order.{given_of, accepted_of, IsFifo, IsOrdered, run-IsOrdered}

-- The capacity and the items; a connection is a number.
abbrev Queue : Type 0
Queue = ℕ × List (Item ℕ)

abbrev taken : ℕ → List (Item ℕ) → Option (Item ℕ × Queue)
taken n [] = none
taken n (item ∷ items) = some (item, (n, items))

abbrev channels : Channels ℕ Queue
channels = record {
  channel = λ n. (n, []);
  send = λ m item. if ltb (length m.1) m.0 then some (m.0, m.1 ++ (item ∷ [])) else none;
  recv = λ m. taken m.0 m.1;
}

queued :
    (m : Queue) (item : Item ℕ) {m' : Queue}
    → channels.send m item ≡ some m'
    → (m'.1 ≡ m.1 ++ (item ∷ [])) × (m'.0 ≡ m.0) × (length m'.1 ≤ m.0)
queued m item {m'} done = elim (Bool-cases (ltb (length m.1) m.0)) [
  | inl room ↦
      let same : ◌≡◌ {A = Queue} (m.0, m.1 ++ (item ∷ [])) m' =
        some-eq-some (sym (if_true _ _ room) ∙ done) in
      let items : m'.1 ≡ m.1 ++ (item ∷ []) = sym (ap (λ q. q.1) same) in
      let below : length m.1 < m.0 = ground (arith, room) in
      (
        items,
        sym (ap (λ q. q.0) same),
        omega (arith, ap length items, length-append m.1 (item ∷ []), below),
      )
  | inr full ↦ absurd (ground (arith, done, full))
]

taken_front :
    (n : ℕ) (items : List (Item ℕ)) {item : Item ℕ} {m' : Queue}
    → taken n items ≡ some (item, m')
    → (items ≡ item ∷ m'.1) × (m'.0 ≡ n)
taken_front n [] h = absurd (ground arith)
taken_front n (i ∷ items) h =
    let same = some-eq-some h in (ap (λ q. q.0 ∷ q.1.1) same, sym (ap (λ q. q.1.0) same))

channels-IsFifo : IsFifo channels
channels-IsFifo = record {
  contents = λ m. m.1;
  capacity = λ m. m.0;
  created = λ n. refl;
  bounded = λ n. refl;
  sends = λ m item done. queued m item done;
  receives = λ m found. taken_front m.0 m.1 found;
}

abbrev opts : IncomingOptions
opts = record { buffer_size = 1 }

-- Two connections come in, and the first is taken out.
two_come :
    Run channels opts
      (accepted (ok 7) ∷ silent ∷ accepted (ok 8) ∷ given (mapped_res (ok 7)) ∷ [])
      (record { acceptor = sending (mapped_res (ok 8)); receiver = some (1, []) })
unfolding listening mapped_res
two_come = start then accept (ok 7) then sent refl then accept (ok 8) then polled refl

run-IsOrdered_example :
    IsOrdered channels channels-IsFifo opts
      (accepted (ok 7) ∷ silent ∷ accepted (ok 8) ∷ given (mapped_res (ok 7)) ∷ [])
      (record { acceptor = sending (mapped_res (ok 8)); receiver = some (1, []) })
      (1, [])
run-IsOrdered_example =
    run-IsOrdered channels channels-IsFifo opts
      (accepted (ok 7) ∷ silent ∷ accepted (ok 8) ∷ given (mapped_res (ok 7)) ∷ [])
      (record { acceptor = sending (mapped_res (ok 8)); receiver = some (1, []) }) (1, []) two_come
      refl

channels-IsProductive : IsProductive channels channels-IsFifo
unfolding channels-IsFifo
channels-IsProductive = record {
  takes = λ m item room.
      ((m.0, m.1 ++ (item ∷ [])), if_true {b = ltb (length m.1) m.0} _ _ (ground (arith, room)));
  gives = λ m item rest front. ((m.0, rest), ap (taken m.0) front);
}

run-Delivers_example :
    (items : List (Item ℕ)) × Delivers channels channels-IsFifo channels-IsProductive
      (record { acceptor = sending (mapped_res (ok 8)); receiver = some (1, []) })
      items
    × (given_of (accepted (ok 7) ∷ silent ∷ accepted (ok 8) ∷ given (mapped_res (ok 7)) ∷ [])
          ++ items
        ≡ accepted_of (accepted (ok 7) ∷ silent ∷ accepted (ok 8) ∷ given (mapped_res (ok 7)) ∷ []))
run-Delivers_example =
    run-Delivers channels channels-IsFifo channels-IsProductive opts
      (accepted (ok 7) ∷ silent ∷ accepted (ok 8) ∷ given (mapped_res (ok 7)) ∷ [])
      (record { acceptor = sending (mapped_res (ok 8)); receiver = some (1, []) }) (1, []) two_come
      refl (omega arith)

abbrev names : SocketNames Text
names = record {
  target = unix;
  show_path = λ path. path;
  to_fs_name = λ path. ok path;
  to_ns_name = λ name. ok name;
  file_name = λ path. some path;
}

-- The world is what was done, the last first.
abbrev server : Server (List Text) Text Text ℕ
server = record {
  remove_file = λ path w. (ok tt, codes "remove" ∷ w);
  create_listener = λ name w. (ok name, codes "create" ∷ w);
  set_permissions = λ path mode w. (ok tt, codes "restrict" ∷ w);
  spawn_acceptor = λ n listener w. (n, codes "spawn" ∷ w);
}

abbrev done : List Text
done = codes "spawn" ∷ codes "restrict" ∷ codes "create" ∷ codes "remove" ∷ []

binds : bind names server (codes "/run/knot.sock") opts [] ≡ (ok 1, done)
unfolding bind resolve resolve_on resolve_unix is_empty_text
binds = refl

bind-IsListening_example : IsListening names server (codes "/run/knot.sock") opts [] 1 done
bind-IsListening_example =
    bind-IsListening names server (codes "/run/knot.sock") opts [] 1 done binds

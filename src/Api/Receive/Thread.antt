-- ===== src/Api/Receive/Thread.antt =====
-- A client thread over the chunks that `recv` returns.
use esphome_linux.Base.{
  ℕ, suc, ◌+◌, ◌≤◌, ◌≡◌, refl, sym, ap, ◌∙◌, Bool, true, false, none, some, List, [], ◌∷◌, ◌++◌,
  length, arith, append_assoc, append-nil, take-write_at, length-write_at, All, flatten,
}
use esphome_linux.Proto.Frame.Decode.{header_of}
use esphome_linux.Api.Receive.{
  Receiver, pending, handle_client_data, Recv, bytes, store_chunk, client_rounds,
}
use esphome_linux.Api.Receive.Stream.{
  Message, Split, stop, Split-append, Split-left, Split-unique, IsMessage, stream, stream-Split,
}
use esphome_linux.Api.Receive.Reassembly.{
  IsReceiver, length-pending, deliver, Delivered, handle_client_data-Delivered,
}

-- Chunks that `recv` can return: none is empty, and each fits behind what the ones before it leave.
abbrev pub Arrives : List ℕ → List (List ℕ) → Type 0
Arrives p [] = Unit {0}
Arrives p (c ∷ cs) =
    (1 ≤ length c)
    × (length p + length c ≤ 4096)
    × ((ms : List Message) (left : List ℕ) → Split (p ++ c) ms left → Arrives left cs)

abbrev pub received : List (List ℕ) → List Recv
received [] = []
received (c ∷ cs) = bytes c ∷ received cs

pending-store_chunk :
    (c : List ℕ) (r : Receiver)
    → IsReceiver r
    → r.recv_pos + length c ≤ 4096
    → pending (store_chunk c r) ≡ pending r ++ c
pending-store_chunk c r v h =
    take-write_at r.recv_buffer r.recv_pos (r.recv_pos + length c) c (omega (arith, v)) refl

store_chunk-IsReceiver :
    (c : List ℕ) (r : Receiver)
    → IsReceiver r
    → r.recv_pos + length c ≤ 4096
    → IsReceiver (store_chunk c r)
store_chunk-IsReceiver c r v h = omega (arith, length-write_at r.recv_buffer r.recv_pos c, v)

module _ {S : Type 0} (dispatch : ℕ → List ℕ → S → S) (alive : S → Bool) (Kept : S → Type 0)
    (kept_alive : (s : S) → Kept s → alive s ≡ true)
    (stays_kept : (t : ℕ) (p : List ℕ) (s : S) → Kept s → Kept (dispatch t p s)) where
  deliver-Kept : (ms : List Message) (s : S) → Kept s → Kept (deliver dispatch ms s)
  deliver-Kept [] s h = h
  deliver-Kept ((t, p) ∷ ms) s h = deliver-Kept ms (dispatch t p s) (stays_kept t p s h)

  deliver-append :
      (ms ms' : List Message) (s : S)
      → deliver dispatch (ms ++ ms') s ≡ deliver dispatch ms' (deliver dispatch ms s)
  deliver-append [] ms' s = refl
  deliver-append ((t, p) ∷ ms) ms' s = deliver-append ms ms' (dispatch t p s)

  -- One chunk, in a thread whose connection is open.
  client_rounds-chunk :
      (c : List ℕ) (later : List Recv) (r r' : Receiver) (s s' : S)
      → 1 ≤ length c
      → alive s ≡ true
      → handle_client_data dispatch (suc (store_chunk c r).recv_pos) (store_chunk c r) s
        ≡ some (r', s')
      → client_rounds dispatch alive (bytes c ∷ later) r s
        ≡ client_rounds dispatch alive later r' s'
  unfolding client_rounds
  client_rounds-chunk [] later r r' s s' h a e = absurd (omega arith)
  client_rounds-chunk (x ∷ xs) later r r' s s' h a e = rw (a, e, client_rounds) refl

  pub record Received (cs : List (List ℕ)) (r : Receiver) (s : S) : Type 0 where
    pub messages : List Message
    pub after : Receiver
    pub valid : IsReceiver after
    pub split : Split (pending r ++ flatten cs) messages (pending after)
    pub returned :
        client_rounds dispatch alive (received cs) r s
        ≡ some (record { leaves = false; receiver = after; state = deliver dispatch messages s })

  pub client_rounds-Received :
      (cs : List (List ℕ)) (r : Receiver) (s : S)
      → IsReceiver r
      → Kept s
      → header_of (pending r) ≡ none
      → Arrives (pending r) cs
      → Received cs r s
  client_rounds-Received [] r s v a e room = record {
    messages = [];
    after = r;
    valid = v;
    split = rw (append-nil (pending r)) (stop e);
    returned = unfold client_rounds in rw (kept_alive s a) refl;
  }
  client_rounds-Received (c ∷ cs) r s v a e (nonempty, fits, later) =
      let size : r.recv_pos + length c ≤ 4096 = omega (arith, length-pending r v) in
      let stored : IsReceiver (store_chunk c r) = store_chunk-IsReceiver c r v size in
      let d : Delivered dispatch (store_chunk c r) s _ =
        handle_client_data-Delivered dispatch (suc (store_chunk c r).recv_pos) (store_chunk c r) s
          stored (omega arith) in
      let first : Split (pending r ++ c) d.messages (pending d.after) =
        rw (pending-store_chunk c r v size) at d.split in
      let rest : Received cs d.after (deliver dispatch d.messages s) =
        client_rounds-Received cs d.after (deliver dispatch d.messages s) d.valid
          (deliver-Kept d.messages s a) (Split-left first)
          (later d.messages (pending d.after) first) in
      record {
        messages = d.messages ++ rest.messages;
        after = rest.after;
        valid = rest.valid;
        split =
            rw (append_assoc (pending r) c (flatten cs)) at
              (Split-append (flatten cs) first rest.split);
        returned =
            client_rounds-chunk c (received cs) r d.after s (deliver dispatch d.messages s) nonempty
              (kept_alive s a) d.returned
            ∙ rest.returned
            ∙ ap (λ (t : S). some (record { leaves = false; receiver = rest.after; state = t }))
                (sym (deliver-append d.messages rest.messages s));
      }

  -- From an empty receive buffer, with a connection that each message leaves open, messages of at
  -- most 32-bit length and 16-bit type that arrive cut into chunks in any way that `recv` can return
  -- them, each chunk with a byte at least and fitting behind what is pending, are dispatched whole,
  -- each once and in order, and nothing is left pending.
  pub client_rounds-stream :
      (ms : List Message) (cs : List (List ℕ)) (r : Receiver) (s : S)
      → All IsMessage ms
      → flatten cs ≡ stream ms
      → IsReceiver r
      → r.recv_pos ≡ 0
      → Kept s
      → Arrives [] cs
      → (r' : Receiver) × (client_rounds dispatch alive (received cs) r s
          ≡ some (record { leaves = false; receiver = r'; state = deliver dispatch ms s }))
        × (pending r' ≡ [])
  client_rounds-stream ms cs r s hm e v empty a room =
      let nothing : pending r ≡ [] = rw empty refl in
      let d : Received cs r s =
        client_rounds-Received cs r s v a (rw nothing (unfold header_of in refl))
          (rw nothing room) in
      let split : Split (stream ms) d.messages (pending d.after) = rw (nothing, e) at d.split in
      let (same, left) = Split-unique split (stream-Split ms hm) in
      (d.after, rw (← same) d.returned, left)

-- ===== src/ProtocolInit/Laws.antt =====
-- What the start of an HTTP/3 connection puts on its streams.
use m_quic.Prelude.{
  ℕ, ◌+◌, ◌*◌, ◌≡◌, refl, ◌∙◌, ap, sym, arith, true, false, ◌⊎◌, inl, inr, ℤ, pos, is_ok,
  Bool-cases,
}
use m_quic.Prelude.{List, [], ◌∷◌, ◌++◌, length, append_assoc, append-nil, Option, none, some}
use m_quic.Quic.{Quic}
use m_quic.Quic.Laws.{Write, Queues}
use m_quic.ProtocolInit.{
  Settings, settings_for, open_on, open_next, h3zero_protocol_init, internal_error,
}

-- One write without FIN.
abbrev pub open_write : ℕ → List ℕ → Write
open_write sid bytes = record { sid = sid; bytes = bytes; fin = false }

-- Writes on streams of their own: the first on `sid`, and each on the stream four further.
abbrev pub open_writes : ℕ → List (List ℕ) → List Write
open_writes sid [] = []
open_writes sid (bytes ∷ more) = open_write sid bytes ∷ open_writes (sid + 4) more

-- The stream that comes next is four further once something was written on the last one, as QUIC
-- numbers its streams, and its priority does not matter.
pub record Numbers {W : Type 0} (q : Quic W) : Type 0 where
  pub next_follows :
      (bytes : List ℕ) (w : W)
      → let sid = q.next_local_stream_id true w in
        let (ret, w1) = q.add_to_stream sid bytes false w in
        is_ok ret ≡ true → q.next_local_stream_id true w1 ≡ sid + 4
  pub priority_opens_nothing :
      (sid priority : ℕ) (w : W)
      → q.next_local_stream_id true (q.set_stream_priority sid priority w).1
        ≡ q.next_local_stream_id true w

open_writes-append :
    (sid : ℕ) (heads : List (List ℕ)) (bytes : List ℕ)
    → open_writes sid (heads ++ (bytes ∷ []))
      ≡ open_writes sid heads ++ (open_write (sid + 4 * length heads) bytes ∷ [])
open_writes-append sid [] bytes = ap (λ (s : ℕ). open_write s bytes ∷ []) (omega arith)
open_writes-append sid (h ∷ heads) bytes =
    ap (λ (l : List Write). open_write sid h ∷ l)
      (open_writes-append (sid + 4) heads bytes
        ∙ ap (λ (s : ℕ). open_writes (sid + 4) heads ++ (open_write s bytes ∷ [])) (omega arith))

length-snoc :
    (heads : List (List ℕ)) (bytes : List ℕ) → length (heads ++ (bytes ∷ [])) ≡ length heads + 1
length-snoc [] bytes = omega arith
length-snoc (h ∷ heads) bytes = omega (arith, length-snoc heads bytes)

module _ {W : Type 0} (q : Quic W) (settings_encode : ℕ → Settings → Option (List ℕ))
    (written : W → List Write) (queues : Queues q written) (numbers : Numbers q) where
  -- What was written behind `before` is `heads`, each on a stream of its own from `sid` on; after an
  -- error it is a front part of that.
  abbrev pub Opened : List Write → ℕ → List (List ℕ) → ℤ × W → Type 0
  Opened before sid heads (r, w) =
      (ws : List Write) × (rest : List Write) × (written w ≡ before ++ ws)
      × (ws ++ rest ≡ open_writes sid heads)
      × ((is_ok r ≡ false)
          ⊎ ((is_ok r ≡ true)
              × (rest ≡ [])
              × (q.next_local_stream_id true w ≡ sid + 4 * length heads)))

  open_on-queues :
      (bytes : List ℕ) (priority : ℕ) (w : W)
      → let sid = q.next_local_stream_id true w in
        let (r, w1) = open_on q settings_encode sid bytes priority w in
        ((is_ok r ≡ false) × (written w1 ≡ written w))
        ⊎ ((written w1 ≡ written w ++ (open_write sid bytes ∷ []))
            × (q.next_local_stream_id true w1 ≡ sid + 4))
  unfolding open_on
  open_on-queues bytes priority w =
      let sid = q.next_local_stream_id true w in
      let (ret, w1) = q.add_to_stream sid bytes false w in
      elim (Bool-cases (is_ok ret)) [
        | inl ok ↦ inr (
          ground (
            arith,
            ok,
            queues.accepts sid bytes false w,
            queues.priority_queues_nothing sid priority w1,
          ),
          ground (
            arith,
            ok,
            numbers.next_follows bytes w,
            numbers.priority_opens_nothing sid priority w1,
          ),
        )
        | inr bad ↦ inl (ground (arith, bad), ground (arith, bad, queues.refuses sid bytes false w))
      ]

  open_next-Opened :
      (before : List Write) (sid : ℕ) (heads : List (List ℕ)) (bytes : List ℕ) (priority : ℕ)
      (rw1 : ℤ × W)
      → Opened before sid heads rw1
      → Opened before sid (heads ++ (bytes ∷ [])) (open_next q settings_encode bytes priority rw1)
  unfolding open_next
  open_next-Opened before sid heads bytes priority (r, w) (ws, rest, e, m, inl bad) = rw bad (
    ws,
    rest ++ (open_write (sid + 4 * length heads) bytes ∷ []),
    e,
    sym (append_assoc ws rest (open_write (sid + 4 * length heads) bytes ∷ []))
        ∙ ap (λ (l : List Write). l ++ (open_write (sid + 4 * length heads) bytes ∷ [])) m
        ∙ sym (open_writes-append sid heads bytes),
    inl bad,
  )
  open_next-Opened before sid heads bytes priority (r, w) (ws, rest, e, m, inr (ok, all, next)) =
      let here = q.next_local_stream_id true w in
      let (r1, w1) = open_on q settings_encode here bytes priority w in
      let whole : ws ≡ open_writes sid heads =
        sym (append-nil ws) ∙ ap (λ (l : List Write). ws ++ l) (sym all) ∙ m in
      let more : ws ++ (open_write here bytes ∷ []) ≡ open_writes sid (heads ++ (bytes ∷ [])) =
        ap (λ (s : ℕ). ws ++ (open_write s bytes ∷ [])) next
        ∙ ap (λ (l : List Write). l ++ (open_write (sid + 4 * length heads) bytes ∷ [])) whole
        ∙ sym (open_writes-append sid heads bytes) in
      rw ok (elim (open_on-queues bytes priority w) [
        | inl (failed, same) ↦ (ws, open_write here bytes ∷ [], same ∙ e, more, inl failed)
        | inr (queued, after) ↦ (
          ws ++ (open_write here bytes ∷ []),
          [],
          queued
              ∙ ap (λ (l : List Write). l ++ (open_write here bytes ∷ [])) e
              ∙ append_assoc before ws (open_write here bytes ∷ []),
          append-nil _ ∙ more,
          elim (Bool-cases (is_ok r1)) [
            | inl fine ↦ inr (fine, refl, omega (arith, after, next, length-snoc heads bytes))
            | inr failed ↦ inl failed
          ],
        )
      ])

  abbrev pub Initialised : W → Option (List ℕ) → ℤ × W → Type 0
  Initialised w0 none (r, w) = (r ≡ internal_error) × (written w ≡ written w0)
  Initialised w0 (some settings) r =
      Opened (written w0) (q.next_local_stream_id true w0)
        ((0 ∷ settings) ∷ (2 ∷ []) ∷ (3 ∷ []) ∷ []) r

  begin_control : (w : W) → Opened (written w) (q.next_local_stream_id true w) [] (pos 0, w)
  begin_control w = ([], [], sym (append-nil _), refl, inr (refl, refl, omega arith))

  all_streams :
      (max_datagram_frame_size : ℕ) (w : W) (o : Option (List ℕ))
      → settings_encode 255 (settings_for max_datagram_frame_size) ≡ o
      → Initialised w o (h3zero_protocol_init q settings_encode max_datagram_frame_size w)
  unfolding h3zero_protocol_init open_next
  all_streams size w none e = rw e (refl, refl)
  all_streams size w (some settings) e =
      let c : ℤ × W = open_next q settings_encode (0 ∷ settings) 0 (pos 0, w) in
      let n : ℤ × W = open_next q settings_encode (2 ∷ []) 1 c in
      let sid = q.next_local_stream_id true w in
      rw e (
        open_next-Opened (written w) sid ((0 ∷ settings) ∷ (2 ∷ []) ∷ []) (3 ∷ []) 1 n (
          open_next-Opened (written w) sid ((0 ∷ settings) ∷ []) (2 ∷ []) 1 c
            (open_next-Opened (written w) sid [] (0 ∷ settings) 0 (pos 0, w) (begin_control w))))

  -- Where picoquic numbers its streams in steps of four and the settings for the size of datagrams
  -- can be encoded, the next three unidirectional streams carry, in this order, the type of the
  -- control stream with the settings, the type of the QPACK encoder and that of the decoder, each on
  -- a stream of its own that is not ended: all three if the answer is 0, and after an error the first
  -- ones. Where the settings cannot be encoded the answer is the internal error, and nothing is
  -- written.
  pub protocol_init-Initialised :
      (max_datagram_frame_size : ℕ) (w : W)
      → Initialised w
          (settings_encode 255 (settings_for max_datagram_frame_size))
          (h3zero_protocol_init q settings_encode max_datagram_frame_size w)
  protocol_init-Initialised size w = all_streams size w _ refl

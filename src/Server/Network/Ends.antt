-- ===== src/Server/Network/Ends.antt =====
-- `network_thread_func` of src/quic_server.c as a whole: its loop ends, and so does the thread.
mod Runs
use m_quic.Prelude.{
  ℕ, zero, suc, ◌≤◌, ◌<◌, ◌≡◌, refl, ◌∙◌, ap, arith, inl, inr, Bool, true, false, ◌⊎◌, ℤ, pos,
  negsuc, ◌++◌, not, if◌then◌else◌, List, Option, none, some, Bool-cases, Option-cases, bit_and,
  index_of, is_index, length, take, replicate, is_ok, if-true, if-false, ◌==◌,
}
use m_quic.Prelude.Effect.{Eff, continue}
use m_quic.PathAlgo.{
  QuicPath, PathAlgo, path_at, path_algo_create, path_algo_refresh, path_algo_pick_send_path,
  path_algo_destroy,
}
use m_quic.Quic.{Quic}
use m_quic.Quic.Laws.{Write, Queues, Permits}
use m_quic.Server.{Server, StreamerContext, Binding, max_paths, unbound}
use m_quic.Server.Pacing.{send_with_pacing}
use m_quic.Server.Frames.Laws.{IsValid}
use m_quic.Server.Bindings.{open_stream, ensure_stream_for_path, wt_header, finish_all_bindings}
use m_quic.Server.Bindings.Laws.{fins, finish_all_bindings-fins}
use m_quic.Server.Bindings.Table.{unbound-IsBound}
use m_quic.Server.Network.{Locals, network_round, network_loop, network_thread_func}
use m_quic.Server.Network.Answers.{
  Answers, Answers-either, Answers-some, Answers-then, Answers-unless, Ends, Ends-continue, Ends-if,
  Ends-or,
}
use m_quic.Server.Network.Round.{IsKept, network_round-Answers, ensure-Answers}
use m_quic.Server.Invariant.{IsSound, IsFriendly, IsSound-IsKept}

-- How the thread ends: sound, with the scheduler's state released and, as the last thing written, a
-- FIN on the stream of each ready binding of the `nb` paths.
abbrev pub Finished : {W : Type 0} → (W → List Write) → ℕ → Server W → Type 0
Finished {W} written nb s' =
    IsSound s'
    × (s'.ctx.algo ≡ none)
    × (before : W) × (written s'.world ≡ written before ++ fins (take nb s'.ctx.bind))

module _ {W : Type 0} (q : Quic W) (permits : Permits q) (n : ℕ) where
  IsKept-both :
      (P Q : Server W → Type 0)
      → IsKept q (suc n) P
      → IsKept q (suc n) Q
      → IsKept q (suc n) (λ s. P s × Q s)
  IsKept-both P Q p r = record {
    keeps_world = λ s w v. (p.keeps_world s w v.0, r.keeps_world s w v.1);
    keeps_algo = λ s a v. (p.keeps_algo s a v.0, r.keeps_algo s a v.1);
    keeps_stop = λ s v. (p.keeps_stop s v.0, r.keeps_stop s v.1);
    keeps_count = λ s k v. (p.keeps_count s k v.0, r.keeps_count s k v.1);
    keeps_pop = λ s v. (p.keeps_pop s v.0, r.keeps_pop s v.1);
    keeps_ensure =
        λ pidx s s' x v e. (p.keeps_ensure pidx s s' x v.0 e, r.keeps_ensure pidx s s' x v.1 e);
  }

  open_stream_ctx :
      (i : ℕ) (path : Option QuicPath) (s s' : Server W) (r : ℤ)
      → open_stream q (suc n) i path s ≡ some (r, s')
      → s'.ctx ≡ record s.ctx { bind = s'.ctx.bind }
  unfolding open_stream
  open_stream_ctx i path s s' r e =
      let sid = q.next_local_stream_id true s.world in
      elim (Option-cases
        (send_with_pacing q (suc n) path sid (wt_header s.ctx.control_stream_id) false s.world)) [
          | inl stuck ↦ ground (arith, stuck)
          | inr ((r', w), sent) ↦ elim (Bool-cases (bit_and sid 0x3 == 0x3)) [
            | inl uni ↦ ground (arith, sent, uni)
            | inr odd ↦ ground (arith, odd)
          ]
        ]

  -- Opening a stream changes nothing in the context but the table.
  pub ensure_stream_ctx :
      (pidx : ℤ) (s s' : Server W) (r : ℤ)
      → ensure_stream_for_path q (suc n) pidx s ≡ some (r, s')
      → s'.ctx ≡ record s.ctx { bind = s'.ctx.bind }
  unfolding ensure_stream_for_path
  ensure_stream_ctx (pos i) s s' r e =
      ground (arith, open_stream_ctx i (path_at (q.paths s.world) i) s s' r)
  ensure_stream_ctx (negsuc i) s s' r e = ground arith

  -- The server is sound, and it has a connection.
  abbrev pub IsConnected : Server W → Type 0
  IsConnected s = IsSound s × (s.ctx.has_cnx ≡ true)

  IsConnected-IsKept : IsKept q (suc n) IsConnected
  IsConnected-IsKept =
      IsKept-both IsSound (λ s. s.ctx.has_cnx ≡ true) (IsSound-IsKept q n)
        (record {
          keeps_world = λ s w v. v;
          keeps_algo = λ s a v. v;
          keeps_stop = λ s v. v;
          keeps_count = λ s k v. v;
          keeps_pop = λ s v. v;
          keeps_ensure = λ pidx s s' x v e.
              ap (λ (c : StreamerContext). c.has_cnx) (ensure_stream_ctx pidx s s' x e) ∙ v;
        })

  -- What the other threads and the callbacks do meanwhile: they keep the server sound and connected,
  -- and they clear `is_sending` in the end. `left` is how often they still act before, at most;
  -- nothing that the network thread does raises it.
  pub record IsClosing (others : Server W → Server W) (left : Server W → ℕ) : Type 0 where
    pub friendly : IsFriendly others
    pub connected : (s : Server W) → s.ctx.has_cnx ≡ true → (others s).ctx.has_cnx ≡ true
    pub held : (k : ℕ) → IsKept q (suc n) (λ s. left s ≤ k)
    pub held_at_start :
        (s : Server W) (a : Option PathAlgo) (bs : List Binding)
        → left (record s { ctx = record s.ctx { algo = a; bind = bs } }) ≤ left s
    pub falls : (s : Server W) → left (others s) ≤ left s
    pub runs_down : (s : Server W) → (others s).ctx.is_sending ≡ true → left (others s) < left s

  module _ (others : Server W → Server W) (left : Server W → ℕ)
      (closing : IsClosing others left) where
    -- Sound and connected, with at most `k` turns of the others left.
    abbrev Within : ℕ → Server W → Type 0
    Within k s = IsConnected s × (left s ≤ k)

    Within-IsKept : (k : ℕ) → IsKept q (suc n) (Within k)
    Within-IsKept k = IsKept-both IsConnected (λ s. left s ≤ k) IsConnected-IsKept (closing.held k)

    others-IsConnected : (s : Server W) → IsConnected s → IsConnected (others s)
    others-IsConnected s (v, cnx) = (
      record {
        buffers = closing.friendly.keeps_buffers s v.buffers;
        table = closing.friendly.keeps_table s v.table;
      },
      closing.connected s cnx,
    )

    others-Within : (k : ℕ) (s : Server W) → Within k s → Within k (others s)
    others-Within k s (v, le) = (others-IsConnected s v, omega (arith, closing.falls s, le))

    -- The loop ends within as many rounds as the others have turns left, and one more.
    network_loop-Answers :
        (m : ℕ) (l : Locals) (s : Server W)
        → Within m s
        → Answers IsConnected (network_loop q (suc n) others (suc m) l s)
    unfolding network_loop
    network_loop-Answers zero l s (v, le) = elim (Bool-cases (others s).ctx.is_sending) [
      | inr off ↦ (tt, others s, if-false _ _ off, others-IsConnected s v)
      | inl on ↦ absurd (omega (arith, closing.runs_down s on, le))
    ]
    network_loop-Answers (suc m) l s (v, le) = elim (Bool-cases (others s).ctx.is_sending) [
      | inr off ↦ (tt, others s, if-false _ _ off, others-IsConnected s v)
      | inl on ↦
          let turn = closing.runs_down s on in
          let (a, s', e, v') =
            Answers-then (Within m) IsConnected (network_round q (suc n) others l (others s))
              (λ out s1. elim out [
                | none ↦ some (tt, s1)
                | some l' ↦ network_loop q (suc n) others (suc m) l' s1
              ])
              (network_round-Answers q permits n others (Within m) (Within-IsKept m)
                (others-Within m) l (others s) (others-IsConnected s v, omega (arith, turn, le)))
              (λ out s1 w.
                Answers-either IsConnected out _ _ (Answers-some IsConnected tt s1 w.0)
                  (λ l'. network_loop-Answers m l' s1 w)) in
          (a, s', if-true _ _ on ∙ e, v')
    ]

    module _ (written : W → List Write) (queues : Queues q written)
        (accepting : (sid : ℕ) (bytes : List ℕ) (fin : Bool) (w : W)
          → is_ok (q.add_to_stream sid bytes fin w).0 ≡ true)
        (nb : ℕ) (steady : (w : W) → length (q.paths w) ≡ nb) where
      finish-Answers :
          (s : Server W)
          → IsConnected s
          → Answers (Finished written nb) (
              continue (finish_all_bindings q (suc n) s) (λ _ s5.
                some
                  (tt, record s5 { ctx = record s5.ctx { algo = path_algo_destroy s5.ctx.algo } })))
      unfolding path_algo_destroy
      finish-Answers s (v, cnx) =
          let (w, e, queued) =
            finish_all_bindings-fins q written queues permits accepting nb steady n s cnx
              v.table.size in
          (
            tt,
            record { ctx = record s.ctx { algo = path_algo_destroy s.ctx.algo }; world = w },
            rw e refl,
            (record { buffers = v.buffers; table = v.table }, refl, s.world, queued),
          )

      -- If the other threads and the callbacks keep the server sound and connected and act at most
      -- `m` times before `is_sending` is cleared, and if pacing permits each write when it is first
      -- asked, picoquic accepts every write and keeps the number of paths, then the network thread of a
      -- server with a connection and valid buffers ends within m + 1 rounds of its loop: the server
      -- is sound then, the scheduler's state is released, and the last that was written is one FIN
      -- on the stream of each ready binding of a path, in order.
      pub network_thread_ends :
          (m : ℕ) (allocated : Bool) (s : Server W)
          → s.ctx.has_cnx ≡ true
          → IsValid s.ctx.frames
          → left s ≤ m
          → Answers (Finished written nb) (network_thread_func q (suc n) others (suc m) allocated s)
      unfolding network_thread_func
      network_thread_ends m allocated s cnx valid le =
          let kept = Within-IsKept m in
          let table = replicate max_paths unbound in
          let s1 : Server W = record s {
            ctx = record s.ctx {
              algo = path_algo_refresh (path_algo_create allocated);
              bind = table;
            };
          } in
          let (picked, algo1) = path_algo_pick_send_path s1.ctx.algo (some (q.paths s.world)) in
          let s2 : Server W = record s1 { ctx = record s1.ctx { algo = algo1 } } in
          let sound : IsSound s2 = record { buffers = valid; table = unbound-IsBound } in
          let begun : Within m s2 =
            ((sound, cnx), omega (arith, closing.held_at_start s algo1 table, le)) in
          Answers-unless (Finished written nb) (not s.ctx.has_cnx) _ _ (ground (arith, cnx)) (
            Answers-then (Within m) (Finished written nb) _ _
              (ensure-Answers q permits n others (Within m) kept (others-Within m) _ s2 begun)
              (λ _ s3 v3.
                Answers-then IsConnected (Finished written nb) _ _
                  (network_loop-Answers m _ _ (kept.keeps_world s3 _ v3))
                  (λ _ s4 v4. finish-Answers s4 v4)))

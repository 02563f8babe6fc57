-- ===== src/Fpga/Stream.antt =====
-- What load_fpga sends and how it ends, where every transmission succeeds.
use mstd.Prelude.{
  ℕ, zero, suc, ◌+◌, ◌-◌, ◌*◌, ◌<◌, ◌≡◌, refl, sym, ap, ◌∙◌, inl, inr, true, false, Option, none,
  some, List, [], ◌∷◌, ◌++◌, Memory, replicate, window, window-append, min, ◌==◌, if◌then◌else◌,
  codes, append-nil, length, eq→==, append_assoc, arith, Bool-cases,
}
use mstd.Fpga.Load.{
  Board, Action, ss, send, Loader, Failure, cdone_stuck, failed, act, and_then, chunk_size,
  transmit_once, send_checked, send_stream, wait_cdone, reset_fpga, finish_load, load_fpga,
}

-- The bytes that some actions put on the bus, if they are transmissions of whole bytes and nothing
-- else: each of eight bits for every byte of its buffer.
abbrev pub payload : List Action → Option (List ℕ)
payload [] = some []
payload (send bits bytes ∷ rest) = elim (payload rest) [
  | none ↦ none
  | some sent ↦ if bits == length bytes * 8 then some (bytes ++ sent) else none
]
payload (other ∷ rest) = none

payload-send :
    (bytes sent : List ℕ) (bits : ℕ) (rest : List Action)
    → bits ≡ length bytes * 8
    → payload rest ≡ some sent
    → payload (send bits bytes ∷ rest) ≡ some (bytes ++ sent)
payload-send bytes sent bits rest e h = rw (h, eq→== bits (length bytes * 8) e) refl

length-window : (m : Memory) (p n : ℕ) → length (window m p n) ≡ n
unfolding window
length-window m p zero = refl
length-window m p (suc n) = ap suc (length-window m (p + 1) n)

snoc_twice {ℓ} :
    {A : Type ℓ} {xs ys : List A} (a b : A)
    → xs ≡ ys
    → (xs ++ (a ∷ [])) ++ (b ∷ []) ≡ ys ++ (a ∷ b ∷ [])
snoc_twice {xs = xs} a b e = append_assoc xs (a ∷ []) (b ∷ []) ∙ ap (λ x. x ++ (a ∷ b ∷ [])) e

module _ (board : Board) (ok : (k : ℕ) → board.transmit k ≡ 0) where
  send_checked-sent :
      (s : Loader) (name : List ℕ) (bits : ℕ) (bytes : List ℕ)
      → send_checked board s name bits bytes
        ≡ (none, record s { actions = s.actions ++ (send bits bytes ∷ []); sends = s.sends + 1 })
  unfolding send_checked transmit_once
  send_checked-sent s name bits bytes = rw (ok s.sends) refl

  -- A run of the loop that has sent the n bytes at p and nothing else.
  pub record Streamed (m : Memory) (s s' : Loader) (p n : ℕ) : Type 0 where
    pub chunks : List Action
    pub actions : s'.actions ≡ s.actions ++ chunks
    pub bytes : payload chunks ≡ some (window m p n)
    pub reads : s'.reads ≡ s.reads

  send_stream-Streamed :
      (fuel : ℕ) (m : Memory) (s : Loader) (p n : ℕ)
      → n < fuel
      → (s' : Loader) × (send_stream board fuel m s p n ≡ (none, s')) × Streamed m s s' p n
  unfolding send_stream and_then window
  send_stream-Streamed zero m s p n h = absurd (omega arith)
  send_stream-Streamed (suc fuel) m s p n h = elim (Bool-cases (n == 0)) [
    | inl b ↦
        let e : 0 ≡ n = ground arith in
        (
          s,
          rw b refl,
          record {
            chunks = [];
            actions = sym (append-nil s.actions);
            bytes = rw (← e) refl;
            reads = refl;
          },
        )
    | inr b ↦
        let len = min chunk_size n in
        let bytes = window m p len in
        let one = record s {
          actions = s.actions ++ (send (len * 8) bytes ∷ []);
          sends = s.sends + 1;
        } in
        let rest = send_stream-Streamed fuel m one (p + len) (n - len) (ground arith) in
        let sum : len + (n - len) ≡ n = omega arith in
        (
          rest.0,
          rw b (rw (send_checked-sent s (codes "Tr8") (len * 8) bytes) rest.1),
          record {
            chunks = send (len * 8) bytes ∷ rest.2.chunks;
            actions =
                rest.2.actions ∙ append_assoc s.actions (send (len * 8) bytes ∷ []) rest.2.chunks;
            bytes =
                payload-send bytes _ (len * 8) rest.2.chunks
                  (ap (λ k. k * 8) (sym (length-window m p len))) rest.2.bytes
                ∙ ap some (window-append m p len (n - len) ∙ ap (window m p) sum);
            reads = rest.2.reads;
          },
        )
  ]

  -- The loader when it starts on the bitstream.
  abbrev pub configured : Loader → Loader
  configured s =
      let r = reset_fpga board s in
      let s' = record r {
        actions = (act r (ss 1)).actions ++ (send 8 (0 ∷ []) ∷ []);
        reads = r.reads + 1;
        sends = r.sends + 1;
      } in
      act s' (ss 0)

  load_fpga-configured :
      (m : Memory) (n : ℕ) (s t : Loader)
      → board.cdone s.reads ≡ false
      → send_stream board (suc n) m (configured s) 0 n ≡ (none, t)
      → load_fpga board m n s ≡ and_then (wait_cdone board 1 (act t (ss 1)) 0) (finish_load board)
  unfolding load_fpga and_then act reset_fpga
  load_fpga-configured m n s t b e =
      let r = reset_fpga board s in
      rw b (
        rw
          (send_checked-sent (act (record r { reads = r.reads + 1 }) (ss 1)) (codes "Tr6") 8
            (0 ∷ []))
          (rw e refl))

  wait_cdone-once :
      (s : Loader)
      → let s' = record s { reads = s.reads + 1 } in
        and_then (wait_cdone board 1 s 0) (finish_load board) ≡ (
          if board.cdone s.reads
          then (
            none,
            record s' {
              actions = s.actions ++ (send 49 (replicate 8 0) ∷ []);
              sends = s.sends + 1;
            },
          )
          else (some (failed (codes "CDONE") 1), s'))
  unfolding wait_cdone and_then finish_load
  wait_cdone-once s = elim (Bool-cases (board.cdone s.reads)) [
    | inl b ↦
        rw b
          (send_checked-sent (record s { reads = s.reads + 1 }) (codes "Tr11") 49 (replicate 8 0))
    | inr b ↦ rw b refl
  ]

  -- The actions up to the bitstream.
  abbrev pub opening : Loader → List Action
  opening s = (act (act (act (reset_fpga board s) (ss 1)) (send 8 (0 ∷ []))) (ss 0)).actions

  -- The three ways in which load_fpga ends.
  pub data Loaded (m : Memory) (n : ℕ) (s : Loader) (r : Option Failure × Loader) : Type 0 where
    stuck : board.cdone s.reads ≡ true → r.0 ≡ some cdone_stuck → Loaded m n s r
    done :
        (chunks : List Action)
        → board.cdone s.reads ≡ false
        → board.cdone (s.reads + 1) ≡ true
        → r.0 ≡ none
        → payload chunks ≡ some (window m 0 n)
        → r.1.actions ≡ opening s ++ chunks ++ (ss 1 ∷ send 49 (replicate 8 0) ∷ [])
        → Loaded m n s r
    late :
        (chunks : List Action)
        → board.cdone s.reads ≡ false
        → board.cdone (s.reads + 1) ≡ false
        → r.0 ≡ some (failed (codes "CDONE") 1)
        → payload chunks ≡ some (window m 0 n)
        → r.1.actions ≡ opening s ++ chunks ++ (ss 1 ∷ [])
        → Loaded m n s r

  -- Where every transmission succeeds, load_fpga is done exactly if CDONE is low at its first read
  -- and high at its second: it has sent a zero byte, the bitstream from its first byte to its last,
  -- and the closing zeros; the bitstream in transmissions of eight bits for every byte. A CDONE that is low at the second read ends it at once: it is not waited
  -- for, and no byte is sent behind the bitstream.
  pub load_fpga-Loaded : (m : Memory) (n : ℕ) (s : Loader) → Loaded m n s (load_fpga board m n s)
  unfolding load_fpga and_then act reset_fpga
  load_fpga-Loaded m n s = elim (Bool-cases (board.cdone s.reads)) [
    | inl b ↦ stuck b (rw b refl)
    | inr b ↦
        let t = send_stream-Streamed (suc n) m (configured s) 0 n (omega arith) in
        let run = load_fpga-configured m n s t.0 b t.1 ∙ wait_cdone-once (act t.0 (ss 1)) in
        elim (Bool-cases (board.cdone (s.reads + 1))) [
          | inl c ↦
              let c' : board.cdone t.0.reads ≡ true = ap board.cdone t.2.reads ∙ c in
              done t.2.chunks b c (rw (run, c') refl) t.2.bytes
                (rw (run, c') (snoc_twice _ _ t.2.actions))
          | inr c ↦
              let c' : board.cdone t.0.reads ≡ false = ap board.cdone t.2.reads ∙ c in
              late t.2.chunks b c (rw (run, c') refl) t.2.bytes
                (rw (run, c') (ap (λ x. x ++ (ss 1 ∷ [])) t.2.actions))
        ]
  ]

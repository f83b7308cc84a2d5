-- ===== src/Server/Transfer/Rounds.antt =====
-- Whole transfers: what is sent is the file, and what is stored is what was received.
use zz_ftp.Prelude.{
  ℕ, zero, suc, ◌*◌, ◌≤◌, ◌<◌, ◌≡◌, refl, ap, ◌∙◌, arith, Bool, true, false, some, List, [], ◌∷◌,
  ◌++◌, append-nil, append_assoc, ltb, lt→ltb, Bytes, length, length-append, take, drop,
  take-append-drop, length-take, take-le, Bool-cases, inl, inr,
}
use zz_ftp.Io.Transfer.{
  Attempt, progress, write_all_complete, Input, got, retry, failure, delivered,
}
use zz_ftp.Server.Client.{DatType}
use zz_ftp.Server.Transfer.{
  Stream, BlockEnv, block_status, send_block, recv_block, is_sending, process_block, once_written,
  write_chunk, ended, on_status, after_block, transfer_rounds, active_transfer, double_and_limit,
}

-- A stream that can be read to its end.
abbrev pub readable : Bytes → Stream
readable rest = record { rest = rest; error_behind = false; written = []; error = false }

sent_chunk :
    (rs : List Attempt) (chunk : Bytes)
    → length chunk ≤ progress rs
    → write_chunk rs chunk ≡ record { sent = chunk; remaining = some 0 }
unfolding write_chunk
sent_chunk rs [] h = refl
sent_chunk rs (c ∷ chunk) h =
    rw (lt→ltb 0 (length (c ∷ chunk)) (omega arith)) (write_all_complete rs (c ∷ chunk) h)

ltb-false : (m n : ℕ) → ltb m n ≡ false → n ≤ m
ltb-false m n h = ground arith

ltb-true : (m n : ℕ) → ltb m n ≡ true → m < n
ltb-true m n h = ground arith

-- The last block: fewer bytes than the buffer holds.
send_last :
    (env : BlockEnv) (rest : Bytes) (sleep : ℕ)
    → 1024 ≤ progress env.attempts
    → length rest < 1024
    → send_block env (readable rest) sleep ≡ record {
      status = some 1;
      stream = record (readable rest) { rest = drop 1024 rest };
      sent = rest;
      sleep = sleep;
    }
unfolding send_block block_status once_written
send_last env rest sleep enough short =
    let whole : take 1024 rest ≡ rest = take-le 1024 rest (omega arith) in
    rw (whole, lt→ltb (length rest) 1024 short)
      (ap
        (λ w. record {
          status = once_written w.remaining 1;
          stream = record (readable rest) { rest = drop 1024 rest };
          sent = w.sent;
          sleep = sleep;
        })
        (sent_chunk env.attempts rest (omega arith)))

-- Every block before it.
send_full :
    (env : BlockEnv) (rest : Bytes) (sleep : ℕ)
    → 1024 ≤ progress env.attempts
    → 1024 ≤ length rest
    → send_block env (readable rest) sleep ≡ record {
      status = some 0;
      stream = readable (drop 1024 rest);
      sent = take 1024 rest;
      sleep = sleep;
    }
unfolding send_block block_status once_written
send_full env rest sleep enough long =
    let size : length (take 1024 rest) ≡ 1024 = length-take 1024 rest long in
    let not_short : ltb (length (take 1024 rest)) 1024 ≡ false = ground (arith, size) in
    rw not_short (
      ap
        (λ w. record {
          status = once_written w.remaining 0;
          stream = readable (drop 1024 rest);
          sent = w.sent;
          sleep = sleep;
        })
        (sent_chunk env.attempts (take 1024 rest) (omega (arith, size))))

module _ (ty : DatType) (running : ℕ → Bool) (env : ℕ → BlockEnv)
    (on : (k : ℕ) → running k ≡ true) where
  send_rounds :
      (f n : ℕ) (rest : Bytes) (sleep : ℕ) (sent : Bytes)
      → is_sending ty ≡ true
      → ((k : ℕ) → 1024 ≤ progress (env k).attempts)
      → length rest < 1024 * f
      → (fp : Stream) × (transfer_rounds f ty running env n (readable rest) sleep sent
          ≡ ended 1 fp (sent ++ rest))
  send_rounds zero n rest sleep sent sends writes room = absurd (omega arith)
  send_rounds (suc f) n rest sleep sent sends writes room =
      elim (Bool-cases (ltb (length rest) 1024)) [
        | inl short ↦ (
          record (readable rest) { rest = drop 1024 rest },
          unfold transfer_rounds process_block after_block on_status in
              rw
                (
                  on n,
                  sends,
                  send_last (env n) rest sleep (writes n) (ltb-true (length rest) 1024 short),
                )
                refl,
        )
        | inr long ↦
            let enough : 1024 ≤ length rest = ltb-false (length rest) 1024 long in
            let size = length-take 1024 rest enough in
            let split = take-append-drop 1024 rest in
            let step : transfer_rounds (suc f) ty running env n (readable rest) sleep sent
                ≡ transfer_rounds f ty running env (suc n) (readable (drop 1024 rest)) sleep
                    (sent ++ take 1024 rest) =
              unfold transfer_rounds process_block after_block on_status in
              rw (on n, sends, send_full (env n) rest sleep (writes n) enough) refl in
            let (fp, e) =
              send_rounds f (suc n) (drop 1024 rest) sleep (sent ++ take 1024 rest) sends writes (
                omega (
                  arith,
                  size,
                  ap length split,
                  length-append (take 1024 rest) (drop 1024 rest),
                )) in
            (
              fp,
              step
                  ∙ e
                  ∙ ap (ended 1 fp) (
                      append_assoc sent (take 1024 rest) (drop 1024 rest)
                      ∙ ap (λ s. sent ++ s) split),
            )
      ]

-- RETR and LIST: while the transfer is not aborted, the file can be read to its end, and write()
-- moves something as often as a block is long, the loop ends within one round for every 1024
-- bytes and one more, reports a normal end, and has sent exactly the file.
pub active_transfer_sends :
    (rounds : ℕ) (ty : DatType) (running : ℕ → Bool) (env : ℕ → BlockEnv) (rest : Bytes)
    → ((k : ℕ) → running k ≡ true)
    → is_sending ty ≡ true
    → ((k : ℕ) → 1024 ≤ progress (env k).attempts)
    → length rest < 1024 * rounds
    → (fp : Stream) × (active_transfer rounds ty running env (readable rest) ≡ ended 1 fp rest)
unfolding active_transfer
active_transfer_sends rounds ty running env rest on sends writes room =
    send_rounds ty running env on rounds 0 rest 1000 [] sends writes room

-- The reads of a transfer, one for each round, and the end of the connection behind them.
abbrev pub Feeds : (ℕ → BlockEnv) → ℕ → List Input → Type 0
Feeds env n [] = (env n).input ≡ got []
Feeds env n (i ∷ is) = ((env n).input ≡ i) × Feeds env (suc n) is

-- fwrite() stores all that was read.
abbrev pub Stores : ℕ → Input → Type 0
Stores room (got bytes) = length bytes ≤ room
Stores room retry = Unit
Stores room failure = Unit

-- A stream that can be written to, with what is in it.
abbrev pub writable : Bytes → Stream
writable written = record { rest = []; error_behind = false; written = written; error = false }

recv_stored :
    (env : BlockEnv) (c : ℕ) (cs written : Bytes) (sleep : ℕ)
    → length (c ∷ cs) ≤ env.stores
    → recv_block (got (c ∷ cs)) env (writable written) sleep
      ≡ record { status = some 0; stream = writable (written ++ (c ∷ cs)); sent = []; sleep = 1000 }
unfolding recv_block block_status
recv_stored env c cs written sleep h =
    let all : take env.stores (c ∷ cs) ≡ c ∷ cs = take-le env.stores (c ∷ cs) h in
    let fits : ltb env.stores (length (c ∷ cs)) ≡ false = ground arith in rw (all, fits) refl

recv_at :
    (env : BlockEnv) (c : ℕ) (cs written : Bytes) (sleep : ℕ)
    → length (c ∷ cs) ≤ env.stores
    → env.input ≡ got (c ∷ cs)
    → recv_block env.input env (writable written) sleep
      ≡ record { status = some 0; stream = writable (written ++ (c ∷ cs)); sent = []; sleep = 1000 }
recv_at env c cs written sleep h e =
    ap (λ i. recv_block i env (writable written) sleep) e ∙ recv_stored env c cs written sleep h

module _ (ty : DatType) (running : ℕ → Bool) (env : ℕ → BlockEnv) (on : (k : ℕ) → running k ≡ true)
    (receives : is_sending ty ≡ false)
    (stores : (k : ℕ) → Stores (env k).stores (env k).input) where
  recv_rounds :
      (inputs : List Input) (f n : ℕ) (written sent : Bytes) (sleep : ℕ)
      → length inputs < f
      → Feeds env n inputs
      → transfer_rounds f ty running env n (writable written) sleep sent
        ≡ ended 1 (writable (written ++ delivered inputs)) sent
  unfolding transfer_rounds process_block after_block on_status recv_block block_status
  recv_rounds inputs zero n written sent sleep room feeds = absurd (omega arith)
  recv_rounds [] (suc f) n written sent sleep room feeds =
      rw (on n, receives, feeds, append-nil written, append-nil sent) refl
  recv_rounds (got [] ∷ is) (suc f) n written sent sleep room feeds =
      rw (on n, receives, feeds.0, append-nil written, append-nil sent) refl
  recv_rounds (failure ∷ is) (suc f) n written sent sleep room feeds =
      rw (on n, receives, feeds.0, append-nil written, append-nil sent) refl
  recv_rounds (retry ∷ is) (suc f) n written sent sleep room feeds =
      rw (on n, receives, feeds.0, append-nil sent)
        (recv_rounds is f (suc n) written sent (double_and_limit sleep 200000) (omega arith)
          feeds.1)
  recv_rounds (got (c ∷ cs) ∷ is) (suc f) n written sent sleep room feeds =
      let fits : length (c ∷ cs) ≤ (env n).stores = rw feeds.0 at (stores n) in
      rw (on n, receives)
        (ap
            (λ b.
              on_status b.status b.stream b.sleep (sent ++ b.sent)
                (transfer_rounds f ty running env (suc n)))
            (recv_at (env n) c cs written sleep fits feeds.0)
          ∙ ap (transfer_rounds f ty running env (suc n) (writable (written ++ (c ∷ cs))) 1000)
              (append-nil sent)
          ∙ recv_rounds is f (suc n) (written ++ (c ∷ cs)) sent 1000 (omega arith) feeds.1
          ∙ ap (λ w. ended 1 (writable w) sent) (append_assoc written (c ∷ cs) (delivered is)))

-- STOR: while the transfer is not aborted and fwrite() stores all that it is given, the loop ends
-- within a round for every read() and one more, reports a normal end, and what it has stored behind
-- the bytes that were there is exactly what was delivered before the end of the connection, however
-- often there was nothing to read.
pub active_transfer_stores :
    (rounds : ℕ) (ty : DatType) (running : ℕ → Bool) (env : ℕ → BlockEnv) (inputs : List Input)
    (written : Bytes)
    → ((k : ℕ) → running k ≡ true)
    → is_sending ty ≡ false
    → ((k : ℕ) → Stores (env k).stores (env k).input)
    → length inputs < rounds
    → Feeds env 0 inputs
    → active_transfer rounds ty running env (writable written)
      ≡ ended 1 (writable (written ++ delivered inputs)) []
unfolding active_transfer
active_transfer_stores rounds ty running env inputs written on receives stores room feeds =
    recv_rounds ty running env on receives stores inputs rounds 0 written [] 1000 room feeds

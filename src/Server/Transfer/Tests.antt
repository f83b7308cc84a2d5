-- ===== src/Server/Transfer/Tests.antt =====
-- Transfers at concrete inputs.
use zz_ftp.Prelude.{ℕ, zero, suc, ◌≡◌, refl, arith, true, false, some, none, List, [], ◌∷◌, codes}
use zz_ftp.Io.Transfer.{Attempt, moved, progress, Input, got, retry}
use zz_ftp.Server.Client.{send_file, recv_file}
use zz_ftp.Server.Transfer.{
  Stream, BlockEnv, is_sending, ended, active_transfer, transfer_rounds, process_block, recv_block,
}
use zz_ftp.Server.Transfer.Passive.{
  Round, connection, not_now, outcome, busy, passive_rounds, passive_transfer,
  passive_rounds-transfer_rounds,
}
use zz_ftp.Server.Transfer.Rounds.{
  readable, writable, Feeds, Stores, active_transfer_sends, active_transfer_stores,
}

-- write() that moves one byte at a time, n times.
abbrev bytewise : ℕ → List Attempt
bytewise zero = []
bytewise (suc n) = moved 1 ∷ bytewise n

abbrev slow : BlockEnv
slow = record { attempts = bytewise 1024; input = retry; stores = 1024 }

progress-bytewise : (n : ℕ) → progress (bytewise n) ≡ n
progress-bytewise zero = refl
progress-bytewise (suc n) = omega (arith, progress-bytewise n)

active_transfer_sends_example :
    (fp : Stream) × (active_transfer 2 send_file (λ _. true) (λ _. slow) (readable (codes "qwq"))
      ≡ ended 1 fp (codes "qwq"))
active_transfer_sends_example =
    active_transfer_sends 2 send_file (λ _. true) (λ _. slow) (codes "qwq") (λ k. refl)
      (unfold is_sending in refl) (λ k. omega (arith, progress-bytewise 1024))
      (unfold codes in omega arith)

-- Two reads with a pause between them, and then the end of the connection.
abbrev reads : ℕ → Input
reads zero = got (codes "ab")
reads (suc zero) = retry
reads (suc (suc zero)) = got (codes "c")
reads (suc (suc (suc n))) = got []

abbrev fed : ℕ → BlockEnv
fed n = record { attempts = []; input = reads n; stores = 1024 }

fed-Stores : (k : ℕ) → Stores 1024 (reads k)
unfolding codes
fed-Stores zero = omega arith
fed-Stores (suc zero) = tt
fed-Stores (suc (suc zero)) = omega arith
fed-Stores (suc (suc (suc n))) = omega arith

fed-Feeds : Feeds fed 0 (got (codes "ab") ∷ retry ∷ got (codes "c") ∷ [])
fed-Feeds = (refl, (refl, (refl, refl)))

active_transfer_stores_example :
    active_transfer 4 recv_file (λ _. true) fed (writable (codes "old "))
    ≡ ended 1 (writable (codes "old abc")) []
unfolding codes
active_transfer_stores_example =
    active_transfer_stores 4 recv_file (λ _. true) fed
      (got (codes "ab") ∷ retry ∷ got (codes "c") ∷ []) (codes "old ") (λ k. refl)
      (unfold is_sending in refl) fed-Stores (omega arith) fed-Feeds

-- Rounds of a transfer in passive mode, with the connection and the file there.
abbrev passive_round : ℕ → Round
passive_round n = record {
  running = true;
  accepted = not_now;
  dat = none;
  hung_up = false;
  env = fed n;
}

passive_rounds-transfer_rounds_example :
    outcome (passive_rounds 4 passive_round 0 (busy recv_file (writable []) 1000 1000 []))
    ≡ transfer_rounds 4 recv_file (λ k. true) fed 0 (writable []) 1000 []
passive_rounds-transfer_rounds_example =
    passive_rounds-transfer_rounds 4 passive_round 0 recv_file (writable []) 1000 1000 []

-- A whole one: a round without a connection, one with it, and the file from then on.
abbrev whole_round : ℕ → Round
whole_round zero = record {
  running = true;
  accepted = not_now;
  dat = none;
  hung_up = false;
  env = fed 0;
}
whole_round (suc n) = record {
  running = true;
  accepted = connection;
  dat = some (recv_file, writable []);
  hung_up = false;
  env = fed n;
}

passive_whole : outcome (passive_transfer 5 whole_round) ≡ ended 1 (writable (codes "abc")) []
unfolding outcome passive_transfer process_block is_sending recv_block codes
passive_whole = refl

-- ===== src/Server/Transfer/Passive.antt =====
-- The loop of passive_data in server/client_xfer_thr.h: it accepts a connection, waits for a file and
-- transfers it. The theorem compares it with the loop of active_data.
use zz_ftp.Prelude.{
  ℕ, zero, suc, ◌≡◌, refl, Bool, true, false, Option, none, some, [], ◌++◌, if◌then◌else◌, Bytes,
}
use zz_ftp.Server.Client.{DatType}
use zz_ftp.Server.Transfer.{
  double_and_limit, Stream, BlockEnv, Block, process_block, Ended, ended, still_going, on_status,
  after_block, transfer_rounds,
}

-- What accept() gives: a connection, EAGAIN, or another error, which ends the program.
pub data Accepted : Type 0 where
  connection not_now fails : Accepted

-- What one round finds: thr_dat_running, accept(), the file and type of the record, whether the
-- peer has closed, and the answers for a block.
pub record Round : Type 0 where
  pub running : Bool
  pub accepted : Accepted
  pub dat : Option (DatType × Stream)
  pub hung_up : Bool
  pub env : BlockEnv

-- The variables of the loop: whether there is a connection, and the file once it is known.
pub record Passive : Type 0 where
  pub connected : Bool
  pub file : Option (DatType × Stream)
  pub accept_sleep : ℕ
  pub process_sleep : ℕ
  pub sent : Bytes

pub data PassiveEnd : Type 0 where
  left : ℕ → Passive → PassiveEnd
  panicked not_over : PassiveEnd

unfoldable pub leave_or : Option ℕ → Passive → (Passive → PassiveEnd) → PassiveEnd
leave_or none st rounds = not_over
leave_or (some zero) st rounds = rounds st
leave_or (some (suc k)) st rounds = left (suc k) st

-- One block of a known file: go on, leave the loop with the status, or be in the block still.
unfoldable pub after_process : Block → DatType → Passive → (Passive → PassiveEnd) → PassiveEnd
unfolding leave_or
after_process blk ty st rounds =
    let st1 = record st {
      file = some (ty, blk.stream);
      process_sleep = blk.sleep;
      sent = st.sent ++ blk.sent;
    } in
    leave_or blk.status st1 rounds

-- Where there is no file yet a connection that the peer has closed is dropped.
unfoldable pub use_file :
    Option (DatType × Stream) → Round → Passive → (Passive → PassiveEnd) → PassiveEnd
unfolding after_process
use_file none r st rounds = rounds (if r.hung_up then record st { connected = false } else st)
use_file (some (ty, fp)) r st rounds =
    after_process (process_block ty r.env fp st.process_sleep) ty st rounds

-- if (fp == NULL) fp = c->dat_fp
unfoldable pub take_file : Option (DatType × Stream) → Round → Option (DatType × Stream)
take_file none r = r.dat
take_file (some file) r = some file

unfoldable pub accept_first : Accepted → Round → Passive → (Passive → PassiveEnd) → PassiveEnd
unfolding use_file take_file
accept_first connection r st rounds =
    use_file (take_file st.file r) r (record st { connected = true }) rounds
accept_first not_now r st rounds =
    rounds (record st { accept_sleep = double_and_limit st.accept_sleep 200000 })
accept_first fails r st rounds = panicked

-- while (1), for at most the given number of rounds.
unfoldable pub passive_rounds : ℕ → (ℕ → Round) → ℕ → Passive → PassiveEnd
unfolding use_file take_file accept_first
passive_rounds zero round n st = not_over
passive_rounds (suc f) round n st =
    let next = passive_rounds f round (suc n) in
    let r = round n in
    let later =
      if st.connected
      then use_file (take_file st.file r) r st next
      else accept_first r.accepted r st next in
    if r.running then later else left 0 st

unfoldable pub passive_transfer : ℕ → (ℕ → Round) → PassiveEnd
unfolding passive_rounds
passive_transfer rounds round = passive_rounds rounds round 0 (record {
  connected = false;
  file = none;
  accept_sleep = 1000;
  process_sleep = 1000;
  sent = [];
})

-- What the client and the file see of an end: the status, the stream and the bytes sent.
unfoldable pub outcome : PassiveEnd → Ended
outcome (left status st) = elim st.file [
  | none ↦ still_going
  | some (_, fp) ↦ ended status fp st.sent
]
outcome panicked = still_going
outcome not_over = still_going

-- The state in a transfer.
abbrev pub busy : DatType → Stream → ℕ → ℕ → Bytes → Passive
busy ty fp accept_sleep sleep sent = record {
  connected = true;
  file = some (ty, fp);
  accept_sleep = accept_sleep;
  process_sleep = sleep;
  sent = sent;
}

outcome_if :
    (b : Bool) (x y : PassiveEnd) (u v : Ended)
    → outcome x ≡ u
    → outcome y ≡ v
    → outcome (if b then x else y) ≡ (if b then u else v)
outcome_if true x y u v e d = e
outcome_if false x y u v e d = d

outcome-status :
    (o : Option ℕ) (st : Passive) (fp : Stream) (ty : DatType) (sleep : ℕ)
    (p : Passive → PassiveEnd) (a : Stream → ℕ → Bytes → Ended)
    → outcome (p st) ≡ a fp sleep st.sent
    → st.file ≡ some (ty, fp)
    → outcome (leave_or o st p) ≡ on_status o fp sleep st.sent a
unfolding outcome leave_or on_status
outcome-status none st fp ty sleep p a e d = refl
outcome-status (some zero) st fp ty sleep p a e d = e
outcome-status (some (suc j)) st fp ty sleep p a e d = rw d refl

after_process-after_block :
    (blk : Block) (ty : DatType) (fp : Stream) (t sleep : ℕ) (sent : Bytes)
    (p : Passive → PassiveEnd) (a : Stream → ℕ → Bytes → Ended)
    → outcome (p (busy ty blk.stream t blk.sleep (sent ++ blk.sent)))
      ≡ a blk.stream blk.sleep (sent ++ blk.sent)
    → outcome (after_process blk ty (busy ty fp t sleep sent) p) ≡ after_block blk sent a
unfolding after_process after_block
after_process-after_block blk ty fp t sleep sent p a h =
    outcome-status blk.status (busy ty blk.stream t blk.sleep (sent ++ blk.sent)) blk.stream ty
      blk.sleep p a h refl

-- Once there is a connection and a file, passive_data does in every number of rounds exactly what
-- active_data does with the same answers of the system: the same status, stream and bytes sent.
pub passive_rounds-transfer_rounds :
    (f : ℕ) (round : ℕ → Round) (n : ℕ) (ty : DatType) (fp : Stream) (t sleep : ℕ) (sent : Bytes)
    → outcome (passive_rounds f round n (busy ty fp t sleep sent))
      ≡ transfer_rounds f ty (λ k. (round k).running) (λ k. (round k).env) n fp sleep sent
unfolding passive_rounds transfer_rounds outcome use_file take_file
passive_rounds-transfer_rounds zero round n ty fp t sleep sent = refl
passive_rounds-transfer_rounds (suc f) round n ty fp t sleep sent =
    let blk = process_block ty (round n).env fp sleep in
    outcome_if (round n).running _ _ _ _
      (after_process-after_block blk ty fp t sleep sent (passive_rounds f round (suc n))
        (transfer_rounds f ty (λ k. (round k).running) (λ k. (round k).env) (suc n))
        (passive_rounds-transfer_rounds f round (suc n) ty blk.stream t blk.sleep
          (sent ++ blk.sent)))
      refl

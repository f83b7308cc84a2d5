-- ===== src/Gui/Calls.antt =====
-- The functions of client/xfer.c that start a thread, with what that thread does, and what their
-- callbacks are given where it cannot be started.
use zz_ftp.Prelude.{
  ℕ, ◌-◌, ◌^◌, ◌≡◌, refl, ap, ◌∙◌, Bool, true, false, Option, some, List, [], ◌∷◌, Bytes,
  if◌then◌else◌, c_str,
}
use zz_ftp.Io.Rlb.{Rlb}
use zz_ftp.Io.Transfer.{Attempt, Input, Written}
use zz_ftp.Gui.State.{Gui, Screen, done}
use zz_ftp.Gui.Events.{on_retr_2}
use zz_ftp.Gui.Marks.{Mark, read_mark}
use zz_ftp.Gui.Transfer.Whole.{Ends, IsWhole, all_of, sums, read_all_to_thr_complete}
use zz_ftp.Gui.Transfer.{
  Loaded, read_all_thr, Progress, read_all_to_thr, write_all_from_thr, write_thr,
}

-- XFER_ERR_THREAD as a size_t
abbrev pub no_thread_len : ℕ
no_thread_len = 2 ^ 64 - 2

-- The thread, or the call of `next` with XFER_ERR_THREAD; `null_call`: `next` is NULL.
pub data Begun {ℓ} (A : Type ℓ) : Type ℓ where
  by_thread : A → Begun A
  refused null_call : Begun A

unfoldable pub with_thread {ℓ} : {A : Type ℓ} → Bool → Bool → A → Begun A
with_thread true has_next a = by_thread a
with_thread false true a = refused
with_thread false false a = null_call

-- strdup(buf) ends at the first NUL; len is not used.
unfoldable pub xfer_write_all : Bool → Bool → List Attempt → Bytes → ℕ → Begun Written
unfolding with_thread
xfer_write_all starts has_next ws buf len = with_thread starts has_next (write_thr ws (c_str buf))

unfoldable pub xfer_read_mark : Bool → Bool → ℕ → Rlb → Begun Mark
unfolding with_thread
xfer_read_mark starts has_next rounds b = with_thread starts has_next (read_mark rounds b)

unfoldable pub xfer_read_all : Bool → List Input → Begun Loaded
unfolding with_thread
xfer_read_all starts rs = with_thread starts true (read_all_thr rs)

-- (*next)(XFER_ERR_THREAD), where a length is taken.
abbrev pub told_len : Progress
told_len = record { written = []; reports = some no_thread_len ∷ [] }

unfoldable pub xfer_read_all_to : Bool → List Input → List (Option ℕ) → Progress
xfer_read_all_to starts rs ws = if starts then read_all_to_thr rs ws else told_len

unfoldable pub xfer_write_all_from : Bool → List Input → List (List Attempt) → Progress
xfer_write_all_from starts rs ws = if starts then write_all_from_thr rs ws else told_len

-- The callbacks of a download, or of an upload, for the lengths that are reported.
unfoldable pub reported : (Option ℕ → Gui → Gui) → List (Option ℕ) → Gui → Gui
reported next [] g = g
reported next (len ∷ lens) g = reported next lens (next len g)

reported-sums :
    (w : Screen) (blocks : List Bytes) (n : ℕ) (g : Gui)
    → (reported (on_retr_2 w) (sums n blocks) g).loading ≡ false
unfolding reported on_retr_2 done
reported-sums w [] n g = refl
reported-sums w (b ∷ blocks) n g = reported-sums w blocks _ _

reported-unstarted :
    (w : Screen) (g : Gui) → (reported (on_retr_2 w) told_len.reports g).loading ≡ g.loading
unfolding reported on_retr_2
reported-unstarted w g = refl

-- Where the data comes to an end and every write() writes its whole block: if the thread of a
-- download starts, the file is what was read, and behind the callbacks for all of its reports the
-- controls are enabled; if it does not, nothing is written, and behind all callbacks the controls
-- are as they were.
pub download_outcome :
    (starts : Bool) (w : Screen) (rs : List Input) (blocks : List Bytes) (ws : List (Option ℕ))
    (g : Gui)
    → Ends rs blocks
    → IsWhole blocks ws
    → ((xfer_read_all_to starts rs ws).written ≡ (if starts then all_of blocks else []))
      × ((reported (on_retr_2 w) (xfer_read_all_to starts rs ws).reports g).loading
          ≡ (if starts then false else g.loading))
unfolding xfer_read_all_to
download_outcome true w rs blocks ws g e h =
    let r = read_all_to_thr_complete rs blocks ws e h in
    (
      ap (λ p. p.written) r,
      ap (λ p. (reported (on_retr_2 w) p.reports g).loading) r ∙ reported-sums w blocks 0 g,
    )
download_outcome false w rs blocks ws g e h = (refl, reported-unstarted w g)

-- ===== src/Server/Threads/Schedule.antt =====
-- A schedule of both threads as a list of steps, to be run.
use zz_ftp.Prelude.{
  ◌≡◌, refl, Bool, true, false, ◌||◌, Option, none, some, List, [], ◌∷◌, inl, inr, if◌then◌else◌,
  Bool-cases,
}
use mathlib.Core.Path.{subst}
use zz_ftp.Server.Threads.{World, Pick, step, not_spurious, Reach, next}

abbrev run_rest : Option World → (World → Option World) → Option World
run_rest none k = none
run_rest (some u) k = k u

abbrev pub all_allowed : Bool → List Pick → Bool
all_allowed wakes [] = true
all_allowed wakes (k ∷ ks) = if wakes || not_spurious k then all_allowed wakes ks else false

-- The steps of a list, one after another, if each can be made.
unfoldable pub run_picks : List Pick → World → Option World
unfolding step
run_picks [] u = some u
run_picks (k ∷ ks) u = run_rest (step k u) (run_picks ks)

run_rest-Reach :
    (wakes : Bool) (u v w : World) (k : Pick) (ks : List Pick) (o : Option World)
    → Reach wakes u v
    → (wakes || not_spurious k) ≡ true
    → step k v ≡ o
    → ((x : World) → Reach wakes u x → run_picks ks x ≡ some w → Reach wakes u w)
    → run_rest o (run_picks ks) ≡ some w
    → Reach wakes u w
run_rest-Reach wakes u v w k ks none r a e on h = absurd (cc)
run_rest-Reach wakes u v w k ks (some x) r a e on h = on x (next r k a e) h

-- A list of steps that can be made leads to a world that follows.
pub run_picks-Reach :
    (wakes : Bool) (u v w : World) (ks : List Pick)
    → Reach wakes u v
    → all_allowed wakes ks ≡ true
    → run_picks ks v ≡ some w
    → Reach wakes u w
unfolding run_picks
run_picks-Reach wakes u v w [] r a h = subst (Reach wakes u) (cc) r
run_picks-Reach wakes u v w (k ∷ ks) r a h = elim (Bool-cases (wakes || not_spurious k)) [
  | inl t ↦
      run_rest-Reach wakes u v w k ks (step k v) r t refl
        (λ x rx hx. run_picks-Reach wakes u x w ks rx (rw t at a) hx) h
  | inr t ↦ absurd (cc)
]

-- ===== src/Paging/Destroy/Frees.antt =====
-- Which frames `pgdir_destroy` gives back.
use spike_os.Prelude.{ℕ, ◌<◌, Bool, false, ◌||◌, List, [], ◌∷◌, ◌==◌}
use spike_os.Frames.{Bitmap}

-- Frames that the bitmap covers, and whether a frame is in a list.
abbrev pub AllFrames : List ℕ → Type 0
AllFrames [] = Unit {0}
AllFrames (f ∷ fs) = (f < 16384) × AllFrames fs

abbrev pub is_in : ℕ → List ℕ → Bool
is_in g [] = false
is_in g (f ∷ fs) = (f == g) || is_in g fs

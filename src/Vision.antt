-- ===== src/Vision.antt =====
-- workloads/vision-qc/main.py: the cache of decoded frames, bounded unless the leak is on. A frame and the score of
-- its edges are the outcome of random bytes and of numpy, so the frame is an argument and `score` a parameter; the
-- threads that feed `on_msg`, the broker and the gauge's server are left out.
pub mod Cache
use abb_accelerator_submissi.Prelude.{
  ℕ, ◌+◌, Bool, List, [], ◌∷◌, ◌++◌, length, last_items, if◌then◌else◌, Float,
}

-- `cache`, the gauge `CACHED`, and the scores that were printed as defects.
pub record Vision (F R : Type 0) : Type 0 where
  pub cache : List F
  pub cached : ℕ
  pub defects : List R

abbrev pub cache_bound : ℕ
cache_bound = 64

module _ {F : Type 0} where
  -- `append` to the list, or to the deque of at most `cache_bound` frames, which drops the oldest.
  abbrev pub append_frame : Bool → F → List F → List F
  append_frame leak frame cache =
      if leak then cache ++ frame ∷ [] else last_items cache_bound (cache ++ frame ∷ [])

module _ {F R : Type 0} ⦃f : Float R⦄ (score : F → R) (leak : Bool) where
  unfoldable pub on_msg : F → Vision F R → Vision F R
  on_msg frame s =
      let cache = append_frame leak frame s.cache in
      record {
        cache = cache;
        cached = length cache;
        defects =
            if f.lt (f.of_nat 200) (score frame) then s.defects ++ score frame ∷ [] else s.defects;
      }

  -- The frames in the order of their calls.
  unfoldable pub feed : List F → Vision F R → Vision F R
  unfolding on_msg
  feed [] s = s
  feed (frame ∷ frames) s = feed frames (on_msg frame s)

module _ {F R : Type 0} where
  abbrev pub empty : Vision F R
  empty = record { cache = []; cached = 0; defects = [] }

-- ===== src/Workload.antt =====
-- `stable_workload` of correlation/engine/state.py, which correlation/service.py and api/main.py
-- repeat as `workload`: the name of a pod's workload, without the suffixes of ReplicaSet and pod.
pub mod Names
use Prim.Native.Char.{Char, code}
use Prim.Native.String.{◌++◌ as ◌+++◌}
use abb_accelerator_submissi.Prelude.{
  ◌-◌, String, Bool, List, [], ◌∷◌, ◌==◌, number_key, length, take, ltb, if◌then◌else◌,
}

abbrev pub dash : Char
dash = "-"

abbrev pub is_dash : Char → Bool
is_dash c = code c == b'-'

-- The character in front of the first part.
abbrev pub push : Char → List String → List String
push c [] = String.◌∷◌ c String.[] ∷ []
push c (part ∷ parts) = String.◌∷◌ c part ∷ parts

-- `pod.split("-")`
unfoldable pub split : String → List String
split String.[] = String.[] ∷ []
split (String.◌∷◌ c s) =
    let parts = split s in if is_dash c then String.[] ∷ parts else push c parts

-- `"-".join(parts)`
unfoldable pub join : List String → String
join [] = String.[]
join (part ∷ []) = part
join (part ∷ next ∷ parts) = part +++ String.◌∷◌ dash (join (next ∷ parts))

unfoldable pub stable_workload : String → String
unfolding split join
stable_workload pod =
    let parts = split pod in
    if ltb 2 (length parts) then join (take (length parts - 2) parts) else pod

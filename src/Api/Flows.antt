-- ===== src/Api/Flows.antt =====
-- api/main.py, `_parse_caretta`: the links between workloads from the network flows that Prometheus returns.
use Prim.Native.Char.{code}
use abb_accelerator_submissi.Prelude.{
  Bool, true, false, not, ◌&&◌, ◌||◌, Option, none, some, List, [], ◌∷◌, map, String, if◌then◌else◌,
  Float, nought, ◌==◌, text_key, number_key, lookup, put, sort,
}
use abb_accelerator_submissi.Cases.{link_key}
use abb_accelerator_submissi.Merge.{truthy_text}

-- One series of `caretta_links_observed`. A value that is no number is `none`.
pub record Flow (R : Type 0) : Type 0 where
  pub client_name : Option String
  pub server_name : Option String
  pub client_namespace : String
  pub server_namespace : String
  pub server_port : Option String
  pub value : Option R

pub record Link (R : Type 0) : Type 0 where
  pub src : String
  pub dst : String
  pub src_ns : String
  pub dst_ns : String
  pub port : Option String
  pub bytes : R

-- `s.startswith(prefix)`
unfoldable pub starts_with : String → String → Bool
starts_with String.[] s = true
starts_with (String.◌∷◌ c prefix) String.[] = false
starts_with (String.◌∷◌ c prefix) (String.◌∷◌ d s) = code c == code d && starts_with prefix s

abbrev pub Links : Type 0 → Type 0
Links R = List ((String × String) × Link R)

module _ {R : Type 0} where
  -- The two names of a flow that counts: both there, different, and in the namespaces of the factory.
  unfoldable pub counted : String → Flow R → Option (String × String)
  unfolding starts_with
  counted prefix s = elim (truthy_text s.client_name) [
    | none ↦ none
    | some cn ↦ elim (truthy_text s.server_name) [
      | none ↦ none
      | some sn ↦
          if cn == sn
            || not (starts_with prefix s.client_namespace && starts_with prefix s.server_namespace)
          then none
          else some (cn, sn)
    ]
  ]

module _ {R : Type 0} ⦃f : Float R⦄ where
  abbrev pub bytes_of : Flow R → R
  bytes_of s = elim s.value [ none ↦ nought | some b ↦ b ]

  -- The link of a flow.
  abbrev pub link_of : String × String → Flow R → Link R
  link_of k s = record {
    src = k.0;
    dst = k.1;
    src_ns = s.client_namespace;
    dst_ns = s.server_namespace;
    port = s.server_port;
    bytes = f.round (bytes_of s) 0;
  }

  -- `k not in best or b > best[k]["bytes"]`
  unfoldable pub is_better : String × String → Flow R → Links R → Bool
  unfolding lookup
  is_better k s best = elim (lookup k best) [ none ↦ true | some e ↦ f.lt e.bytes (bytes_of s) ]

  unfoldable pub collect_links : String → Links R → List (Flow R) → Links R
  unfolding counted is_better put
  collect_links prefix best [] = best
  collect_links prefix best (s ∷ flows) = elim (counted prefix s) [
    | none ↦ collect_links prefix best flows
    | some k ↦
        collect_links prefix (if is_better k s best then put k (link_of k s) best else best) flows
  ]

  abbrev pub not_fewer : Link R → Link R → Bool
  not_fewer a b = not (f.lt a.bytes b.bytes)

  -- `_parse_caretta`: one link for each pair, most bytes first.
  unfoldable pub parse_caretta : String → List (Flow R) → List (Link R)
  unfolding collect_links sort
  parse_caretta prefix flows = sort not_fewer (map (λ e. e.1) (collect_links prefix [] flows))

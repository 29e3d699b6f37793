-- ===== src/Graph/Distances.antt =====
-- scripts/expanded-return-graph.mjs: the maps that `discoverExpandedReturnGraph` derives from the
-- transfers: who pays an address, how many hops it is from the funder, and where it pays.
use loop_proof.Common.{
  ℕ, zero, suc, ◌≡◌, ◌∙◌, ap, ◌≤◌, refl, arith, if◌then◌else◌, Bool-cases, inl, inr, false, get_or,
  List, [], ◌∷◌, ◌++◌, map, flat_map, Text, text_eq, text_eq_iff, keys_by_text, add, set_of, lookup,
  has_key, insert, All,
}
use loop_proof.Graph.{Transfer, Network}

-- `reverse`: the addresses that pay an address.
unfoldable pub add_payer : List (Text × List Text) → Transfer → List (Text × List Text)
unfolding insert add lookup
add_payer payers edge = insert edge.to (add edge.from (get_or (lookup edge.to payers) [])) payers

unfoldable pub payers_of :
    List (Text × Transfer) → List (Text × List Text) → List (Text × List Text)
unfolding add_payer
payers_of [] payers = payers
payers_of ((identity, edge) ∷ rest) payers = payers_of rest (add_payer payers edge)

-- One round: the addresses that were not met before are at this depth.
unfoldable pub note_depth :
    ℕ → List Text → List (Text × ℕ) × List Text → List (Text × ℕ) × List Text
unfolding has_key insert
note_depth depth [] (distance, next) = (distance, next)
note_depth depth (previous ∷ rest) (distance, next) = note_depth depth rest (
    if has_key previous distance
    then (distance, next)
    else (insert previous depth distance, next ++ previous ∷ []))

-- The rounds from a depth on.
unfoldable pub note_depths :
    List (Text × List Text) → ℕ → ℕ → List (Text × ℕ) → List Text → List (Text × ℕ)
unfolding lookup note_depth
note_depths payers zero depth distance reachable = distance
note_depths payers (suc rounds) depth distance reachable =
    let (later, next) =
      note_depth depth (flat_map (λ address. get_or (lookup address payers) []) reachable)
        (distance, []) in
    note_depths payers rounds (suc depth) later next

-- `distance`
unfoldable pub distances : Text → Network → List (Text × ℕ)
unfolding payers_of note_depths
distances funder network =
    note_depths (payers_of network.edges []) 9 1 ((funder, 0) ∷ []) (funder ∷ [])

-- `destinations`
unfoldable pub destinations : List (Text × List Transfer) → List (Text × List Text)
unfolding set_of
destinations [] = []
destinations ((address, hops) ∷ rest) =
    (address, set_of (map (λ (hop : Transfer). hop.to) hops)) ∷ destinations rest

-- Every address but the funder is at least a hop away.
abbrev pub IsAway : Text → List (Text × ℕ) → Type 0
IsAway funder distance =
    All (λ (entry : Text × ℕ). text_eq entry.0 funder ≡ false → 1 ≤ entry.1) distance

module _ (funder : Text) where
  pub lookup-IsAway :
      (address : Text) (distance : List (Text × ℕ))
      → IsAway funder distance
      → text_eq address funder ≡ false
      → 1 ≤ get_or (lookup address distance) 10
  unfolding lookup
  lookup-IsAway address [] away other = omega arith
  lookup-IsAway address ((key, depth) ∷ distance) (first, away) other =
      elim (Bool-cases (text_eq key address)) [
        | inl same ↦
            rw same
              (first (ap (λ text. text_eq text funder) ((text_eq_iff key address).0 same) ∙ other))
        | inr different ↦ rw different (lookup-IsAway address distance away other)
      ]

  insert-IsAway :
      (address : Text) (depth : ℕ) (distance : List (Text × ℕ))
      → 1 ≤ depth
      → IsAway funder distance
      → IsAway funder (insert address depth distance)
  unfolding insert
  insert-IsAway address depth [] deep away = ((λ _. deep), tt)
  insert-IsAway address depth ((key, old) ∷ distance) deep (first, away) =
      elim (Bool-cases (text_eq key address)) [
        | inl same ↦ rw same ((λ _. deep), away)
        | inr other ↦ rw other (first, insert-IsAway address depth distance deep away)
      ]

  note_depth-IsAway :
      (depth : ℕ) (previous : List Text) (noted : List (Text × ℕ) × List Text)
      → 1 ≤ depth
      → IsAway funder noted.0
      → IsAway funder (note_depth depth previous noted).0
  unfolding note_depth
  note_depth-IsAway depth [] (distance, next) deep away = away
  note_depth-IsAway depth (previous ∷ rest) (distance, next) deep away =
      elim (Bool-cases (has_key previous distance)) [
        | inl old ↦ rw (old, note_depth) (note_depth-IsAway depth rest (distance, next) deep away)
        | inr new ↦
            rw (new, note_depth)
              (note_depth-IsAway depth rest (insert previous depth distance, next ++ previous ∷ [])
                deep (insert-IsAway previous depth distance deep away))
      ]

  note_depths-IsAway :
      (payers : List (Text × List Text)) (rounds depth : ℕ) (distance : List (Text × ℕ))
      (reachable : List Text)
      → 1 ≤ depth
      → IsAway funder distance
      → IsAway funder (note_depths payers rounds depth distance reachable)
  unfolding note_depths
  note_depths-IsAway payers zero depth distance reachable deep away = away
  note_depths-IsAway payers (suc rounds) depth distance reachable deep away =
      let previous = flat_map (λ address. get_or (lookup address payers) []) reachable in
      let (later, next) = note_depth depth previous (distance, []) in
      note_depths-IsAway payers rounds (suc depth) later next (omega arith)
        (note_depth-IsAway depth previous (distance, []) deep away)

  pub distances-IsAway : (network : Network) → IsAway funder (distances funder network)
  unfolding distances
  distances-IsAway network =
      note_depths-IsAway (payers_of network.edges []) 9 1 ((funder, 0) ∷ []) (funder ∷ [])
        (omega arith) ((λ other. let same = (text_eq_iff funder funder).1 refl in cc), tt)

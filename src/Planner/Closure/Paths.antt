-- ===== src/Planner/Closure/Paths.antt =====
-- `validRelayPath` of the planner, against what a relay path is.
use loop_proof.Common.{
  All, All_of_every, every_of_All, ◌-◌, ◌*◌, ◌≤◌, ◌<◌, ◌≡◌, refl, sym, ◌∙◌, Outcome-cases,
  Ordering-cases, ◌↔◌, inl, inr, arith, true, Option, get_or, List, [], ◌∷◌, length, last?, ok,
}
use loop_proof.Policy.{rho_hop_bps, t_path_seconds, basis_points}
use loop_proof.Evidence.{Atom, number_of, Platform}
use loop_proof.Claims.{Period}
use loop_proof.Planner.Closure.Hops.{
  HasBlock, IsWithin, IsFollowedBy, has_safe_block-HasBlock, HasBlock-has_safe_block,
  in_period-IsWithin, IsWithin-in_period, compare_hops-IsFollowedBy,
}
use loop_proof.Planner.Closure.{
  in_period, has_safe_block, compare_hops, valid_hops, valid_relay_hops,
}

module _ (platform : Platform) where
  -- A hop moves a positive amount, comes later than the one before, on the chain and by its time,
  -- and passes on the required share.
  pub record IsHop (previous current : Atom) : Type 0 where
    pub positive : 0 < current.amount_raw
    pub later : IsFollowedBy platform previous current
    pub in_time : number_of previous.timestamp ≤ number_of current.timestamp
    pub retained : previous.amount_raw * rho_hop_bps ≤ current.amount_raw * basis_points

  abbrev pub AreHops : Atom → List Atom → Type 0
  AreHops previous [] = Unit
  AreHops previous (current ∷ rest) = IsHop previous current × AreHops current rest

  pub record IsRelay (period : Option Period) (first : Atom) (rest : List Atom) : Type 0 where
    pub short : length (first ∷ rest) ≤ 9
    pub safe : All HasBlock (first ∷ rest)
    pub inside : All (IsWithin period) (first ∷ rest)
    pub positive : 0 < first.amount_raw
    pub hops : AreHops first rest
    pub quick :
        number_of (get_or (last? rest) first).timestamp - number_of first.timestamp ≤ t_path_seconds

  valid_hops_hop :
      (previous current : Atom) (rest : List Atom)
      → IsHop previous current
      → valid_hops platform previous (current ∷ rest) ≡ valid_hops platform current rest
  unfolding valid_hops
  valid_hops_hop previous current rest h =
      rw ((compare_hops-IsFollowedBy platform previous current).1 h.later, valid_hops)
        (ground (arith, h.positive, h.in_time, h.retained))

  IsHop-of_valid_hops :
      (previous current : Atom) (rest : List Atom)
      → valid_hops platform previous (current ∷ rest) ≡ ok true
      → IsHop previous current
  unfolding valid_hops
  IsHop-of_valid_hops previous current rest h =
      elim (Outcome-cases (compare_hops platform previous current)) [
        | inl (o, e) ↦ record {
          positive = ground arith;
          later =
              (compare_hops-IsFollowedBy platform previous current).0
                (ground (arith, Ordering-cases o));
          in_time = ground (arith, Ordering-cases o);
          retained = ground (arith, Ordering-cases o);
        }
        | inr (failure, e) ↦ ground arith
      ]

  valid_hops_iff :
      (previous : Atom) (rest : List Atom)
      → (valid_hops platform previous rest ≡ ok true) ↔ AreHops previous rest
  unfolding valid_hops
  valid_hops_iff previous [] = (λ h. tt, λ h. refl)
  valid_hops_iff previous (current ∷ rest) = (
    λ h.
        let hop = IsHop-of_valid_hops previous current rest h in
        (hop, (valid_hops_iff current rest).0 (sym (valid_hops_hop previous current rest hop) ∙ h)),
    λ h. valid_hops_hop previous current rest h.0 ∙ (valid_hops_iff current rest).1 h.1,
  )

  -- validRelayPath accepts the hops of a path exactly where there are at most nine, their blocks are safe
  -- integers and in the period, where one is given, their amounts are positive, each follows the one before
  -- on the chain, by its time not earlier, and passes on the required share, and the last is within the
  -- allowed time of the first. Where it throws, one of these does not hold.
  pub valid_relay_hops_iff :
      (period : Option Period) (first : Atom) (rest : List Atom)
      → (valid_relay_hops platform period (first ∷ rest) ≡ ok true) ↔ IsRelay period first rest
  unfolding valid_relay_hops
  valid_relay_hops_iff period first rest = (
    λ h. elim (Outcome-cases (valid_hops platform first rest)) [
      | inl (steps, e) ↦ record {
        short = ground arith;
        safe =
            All_of_every HasBlock has_safe_block has_safe_block-HasBlock (first ∷ rest)
              (ground arith);
        inside =
            All_of_every (IsWithin period) (in_period period) (in_period-IsWithin period)
              (first ∷ rest) (ground arith);
        positive = ground arith;
        hops = (valid_hops_iff first rest).0 (ground arith);
        quick = ground arith;
      }
      | inr (failure, e) ↦ ground arith
    ],
    λ h. ground (
      arith,
      h.short,
      every_of_All HasBlock has_safe_block HasBlock-has_safe_block (first ∷ rest) h.safe,
      every_of_All (IsWithin period) (in_period period) (IsWithin-in_period period) (first ∷ rest)
          h.inside,
      h.positive,
      (valid_hops_iff first rest).1 h.hops,
      h.quick,
    ),
  )

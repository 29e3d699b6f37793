-- ===== src/Tests/Searches.antt =====
-- The search for further returns at a concrete input.
use loop_proof.Common.{
  ℕ, ◌-◌, ◌≤◌, ◌≡◌, refl, ◌↔◌, true, some, List, [], ◌∷◌, ◌++◌, All, map, length, sum_by, Text,
  codes, unit_order,
}
use loop_proof.Policy.{max_return_paths}
use loop_proof.Evidence.{Atom, Evidence, atom}
use loop_proof.Returns.{pos, credit}
use loop_proof.FixedVolume.{Request, FixedVolume, return_path, select_fixed_volume_returns}
use loop_proof.FixedVolume.Scoped.{IsScopedPath}
use loop_proof.FixedVolume.AtLeast.{credit_of, select_fixed_volume_returns_at_least}
use loop_proof.Tests.Samples.{direct}

abbrev hash_of : Text → Text
hash_of last = codes "0x000000000000000000000000000000000000000000000000000000000000" ++ last

abbrev return_at : Text → ℕ → ℕ → Atom
return_at hash time amount = record direct {
  transaction_hash = some (hash_of hash);
  block_number = some time;
  timestamp = some time;
  amount_raw = amount;
  from = some (codes "0xS");
  to = some (codes "0xf");
}

abbrev request : Request
request = record {
  candidates = atom (return_at (codes "00bb") 44470006 300) ∷ [];
  baseline = atom (return_at (codes "00AA") 44470005 500) ∷ [];
  volume = pos 1600;
  target_bps = pos 5000;
  scope = record {
    seller = codes "0xs";
    funder = codes "0xf";
    earliest = 44470000;
    end = 44480000;
    start_block = 44469557;
    end_block = 44480000;
  };
}

abbrev result : FixedVolume
result = record {
  required_return_raw = 800;
  baseline_return_raw = 500;
  candidate_return_raw = 800;
  shortfall_raw = 0;
  target_met_by_candidates = true;
  paths =
      record { credit_raw = 500; hops = return_at (codes "00aa") 44470005 500 ∷ [] }
      ∷ record { credit_raw = 300; hops = return_at (codes "00bb") 44470006 300 ∷ [] }
      ∷ [];
}

select_fixed_volume_returns_at_least_example :
    (evidence : List Evidence) × (result.paths ≡ map return_path evidence)
    × All (IsScopedPath request.scope) evidence
    × (length result.paths ≤ max_return_paths)
    × (sum_by credit_of result.paths ≡ result.candidate_return_raw)
    × (sum_by credit request.baseline ≤ result.candidate_return_raw)
    × (result.shortfall_raw ≡ result.required_return_raw - result.candidate_return_raw)
    × ((result.target_met_by_candidates ≡ true) ↔ (result.shortfall_raw ≡ 0))
unfolding select_fixed_volume_returns unit_order
select_fixed_volume_returns_at_least_example =
    select_fixed_volume_returns_at_least unit_order request result refl

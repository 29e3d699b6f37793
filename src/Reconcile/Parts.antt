-- ===== src/Reconcile/Parts.antt =====
-- The steps of `reconcileDevelopmentProofResults` where it returns.
use loop_proof.Common.{
  Ordering, ◌≡◌, List, [], filter, Text, ok, >>=-eq-ok, ok_injective, map_outcome,
}
use loop_proof.Reconcile.{
  SellerDiagnostics, BundleClaim, Gathered, Candidate, SellerResult, Reconciled, ReconcileRequest,
  assembled, is_investigated, candidates_of, claims_of, claims_by_id, gather_all, no_proofs,
  diagnostics_by_seller, reconciled, result_of, reconcile_development_proof_results,
}

pub record Parts (locale_compare : Text → Text → Ordering) (request : ReconcileRequest)
    (result : Reconciled) : Type 0 where
  pub entries : List Candidate
  pub claims : List BundleClaim
  pub gathered : Gathered
  pub diagnostics : List (Text × SellerDiagnostics)
  pub candidates : List Candidate
  pub results : List SellerResult
  pub entries_read : candidates_of request.discovery ≡ ok entries
  pub proofs_gathered :
      gather_all (claims_by_id claims []) no_proofs request.seller_proofs ≡ ok gathered
  pub entries_changed : map_outcome (reconciled gathered.proofs_by_seller) entries ≡ ok candidates
  pub results_made :
      map_outcome (result_of diagnostics) (filter is_investigated candidates) ≡ ok results
  pub result_made : assembled locale_compare request gathered candidates results ≡ result

pub parts_of :
    (locale_compare : Text → Text → Ordering) (request : ReconcileRequest) (result : Reconciled)
    → reconcile_development_proof_results locale_compare request ≡ ok result
    → Parts locale_compare request result
unfolding reconcile_development_proof_results
parts_of locale_compare request result done =
    let (entries, read, after_entries) = >>=-eq-ok (candidates_of request.discovery) _ done in
    let (claims, _, after_claims) = >>=-eq-ok (claims_of request.bundle) _ after_entries in
    let (gathered, gathering, after_proofs) =
      >>=-eq-ok (gather_all (claims_by_id claims []) no_proofs request.seller_proofs) _
        after_claims in
    let (diagnostics, _, after_diagnostics) =
      >>=-eq-ok (diagnostics_by_seller request.diagnostics []) _ after_proofs in
    let (candidates, changing, after_candidates) =
      >>=-eq-ok (map_outcome (reconciled gathered.proofs_by_seller) entries) _ after_diagnostics in
    let (results, making, made) =
      >>=-eq-ok (map_outcome (result_of diagnostics) (filter is_investigated candidates)) _
        after_candidates in
    record {
      entries = entries;
      claims = claims;
      gathered = gathered;
      diagnostics = diagnostics;
      candidates = candidates;
      results = results;
      entries_read = read;
      proofs_gathered = gathering;
      entries_changed = changing;
      results_made = making;
      result_made = ok_injective made;
    }

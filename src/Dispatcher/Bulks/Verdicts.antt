-- ===== src/Dispatcher/Bulks/Verdicts.antt =====
-- What reconcileCalculations makes of an answer of the results service.
use ccb_operator.Base.{
  ◌≡◌, refl, ◌↔◌, ◌⊎◌, inl, inr, Bool, String, Option, none, some, ◌≤◌, arith, ltb, if◌then◌else◌,
}
use ccb_operator.Go.{Error}
use ccb_operator.Api.Meta.{Time}
use ccb_operator.Grpc.{GetDataResponse}
use ccb_operator.Util.Formats.{Formats}
use ccb_operator.Dispatcher.Bulks.{keep, mark_cached, judge}

-- A response that holds a result from before the time `t`, or from it.
abbrev pub IsOlder : Formats → Time → Error ⊎ Option GetDataResponse → Type 0
IsOlder F t answer =
    (resp : GetDataResponse) × (created_at : Time) × (answer ≡ inr (some resp))
    × (F.parse_time resp.created_at ≡ inr created_at)
    × (created_at ≤ t)

module _ (F : Formats) (not_found : Error → Bool) (key : String) (t : Time) where
  judge_response :
      (resp : GetDataResponse) (parsed : Error ⊎ Time)
      → F.parse_time resp.created_at ≡ parsed
      → (judge F not_found key t (inr (some resp)) ≡ mark_cached) ↔ IsOlder F t (inr (some resp))
  unfolding judge
  judge_response resp (inl e) h =
      rw (h, judge) (λ k. absurd (cc k), λ (resp', c, e, parsed, older). absurd (cc (e, parsed, h)))
  judge_response resp (inr created_at) h =
      rw (h, judge)
        (
          λ k. (resp, created_at, refl, h, ground arith),
          λ (resp', c, e, parsed, older). judge_older (cc (e, parsed, h)) older,
        )
    where
      judge_older :
          {c : Time}
          → created_at ≡ c
          → c ≤ t
          → (if ltb t created_at then keep else mark_cached) ≡ mark_cached
      judge_older e older = ground arith

-- A calculation is marked as cached exactly when the results service holds a result for it that is
-- not newer than the bulk. A missing result, an error and an unreadable time leave it as it is.
pub judge_cached_iff :
    (F : Formats) (not_found : Error → Bool) (key : String) (t : Time)
    (answer : Error ⊎ Option GetDataResponse)
    → (judge F not_found key t answer ≡ mark_cached) ↔ IsOlder F t answer
unfolding judge
judge_cached_iff F not_found key t (inl e) =
    (λ k. absurd (ground arith), λ (_, _, other, _, _). absurd (cc other))
judge_cached_iff F not_found key t (inr none) =
    (λ k. absurd (cc k), λ (_, _, e, _, _). absurd (cc e))
judge_cached_iff F not_found key t (inr (some resp)) =
    judge_response F not_found key t resp (F.parse_time resp.created_at) refl

-- ===== src/Mls/Auth/Examples.antt =====
-- Two calls that share a refresh, and a third that is served from the cache.
use frontstead_kit.Prelude.{refl, none, some}
use frontstead_kit.Mls.Auth.{
  TokenResponse, Auth, new_auth, token_of, get_auth_headers, land_refresh, resume_task, calls,
  lands, resumes, Reach, start, step, is_stale,
}
use frontstead_kit.Mls.Auth.Flights.{IsSingle, Reach-IsSingle}
use frontstead_kit.Mls.Auth.Unexpired.{IsFresh, get_auth_headers-IsFresh}

abbrev answer : TokenResponse
answer = record { access_token = "t"; expires_in = some 3600 }

abbrev called : Auth
called = get_auth_headers none 1 5 (get_auth_headers none 0 0 new_auth)

abbrev back : Auth
back = land_refresh none 0 answer 10 called

abbrev cached : Auth
cached = resume_task none 0 (back.flights 0) back

cached-Reach : Reach none cached
unfolding get_auth_headers is_stale
cached-Reach =
    step (step (step (step start (calls 0 0 refl)) (calls 1 5 refl)) (lands 0 10 answer refl))
      (resumes 0 0 refl)

Reach-IsSingle_example : IsSingle none cached
Reach-IsSingle_example = Reach-IsSingle none cached cached-Reach

get_auth_headers-IsFresh_example : IsFresh none cached 20 "Bearer t"
unfolding get_auth_headers is_stale token_of
get_auth_headers-IsFresh_example =
    get_auth_headers-IsFresh none cached 2 20 "Bearer t" cached-Reach refl

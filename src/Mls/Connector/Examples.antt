-- ===== src/Mls/Connector/Examples.antt =====
-- A vendor that is busy once and then serves two pages, and one that is always busy.
use frontstead_kit.Prelude.{
  ℕ, ◌≡◌, ◌≢◌, eq_iff, refl, String, none, some, [], ◌∷◌, arith, if◌then◌else◌, ◌==◌,
}
use frontstead_kit.Mls.Metrics.{Feed, page, finished}
use frontstead_kit.Mls.Connector.{
  Response, answered, refused, attempt_from, execute_with_retry, fetch_from,
}
use frontstead_kit.Mls.Connector.Paging.{
  Serves, ends, more, retries, answers, nowhere, there, IsClientError, fetch_from-Serves,
  fetch_from_sound,
}

abbrev vendor : ℕ → String → Response
vendor n url =
    if n == 0
    then refused (some 503) "busy"
    else if n == 1
    then answered [] (some "/next")
    else answered [] none

abbrev busy : ℕ → String → Response
busy n url = refused (some 503) "busy"

abbrev two_pages : Feed
two_pages = page [] (page [] finished)

first_request :
    execute_with_retry vendor 1000 3 0 "/Property"
    ≡ record { response = answered [] (some "/next"); sent = 2; delays = 1000 ∷ [] }
unfolding execute_with_retry attempt_from
first_request = refl

abbrev next_link : String
next_link = "/next"

filled : next_link ≢ ""
filled e = ground (arith, (eq_iff next_link "").1 e)

transient : ¬ IsClientError (some 503)
transient (code, e, low, high) = ground (arith, e, high)

served : Serves vendor 1000 3 0 "/Property" two_pages
served =
    more [] (some "/next") "/next" (page [] finished)
      (retries (some 503) "busy" refl transient (answers [] (some "/next") refl))
      (there "/next" filled) (ends [] none (answers [] none refl) nowhere)

fetch_from-Serves_example : fetch_from vendor 1000 2 3 0 "/Property" ≡ some two_pages
fetch_from-Serves_example =
    fetch_from-Serves vendor 1000 3 2 0 "/Property" two_pages served (omega arith)

fetched : fetch_from vendor 1000 5 3 0 "/Property" ≡ some two_pages
unfolding execute_with_retry attempt_from fetch_from
fetched = refl

fetch_from_sound_example : Serves vendor 1000 3 0 "/Property" two_pages
fetch_from_sound_example = fetch_from_sound vendor 1000 3 5 0 "/Property" two_pages fetched

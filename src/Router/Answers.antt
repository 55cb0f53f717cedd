-- ===== src/Router/Answers.antt =====
-- What the device gets.
use adms.Store.{Db}
use adms.Prelude.{[], ◌∷◌, ℕ, ◌≡◌, ◌↔◌, refl, Option, none, some, String, List, codes}
use adms.Http.{Request, Response, ok_response, send_plain_text}
use adms.Store.Exec.{
  continue_with, World, Result, ok, thrown, DbError, ◌>>=◌, ◌>>◌, pure, try_catch, write,
}
use adms.Store.Total.{NeverThrows, total_rules}
use adms.Timezone.{Intl}
use adms.Cdata.{log_raw_request}
use adms.Router.{
  adms_router, Incoming, parsed, oversized, route, Endpoint, async_handler, handle_error, run_route,
  RouteError, too_large, rejected, Db, unreadable_body, unreadable,
}

handle_error-total : (req : Request) (e : RouteError) → NeverThrows (handle_error req e)
unfolding handle_error
handle_error-total req (too_large size limit) = search total_rules
handle_error-total req unreadable_body = search total_rules
handle_error-total req (rejected e) = search total_rules

async_handler-total :
    (intl : Intl) (endpoint : Endpoint) (req : Request)
    → NeverThrows (async_handler intl endpoint req)
unfolding async_handler
async_handler-total intl endpoint req = search (total_rules, handle_error-total)

log_raw_request-total : (req : Request) → NeverThrows (log_raw_request req)
unfolding log_raw_request
log_raw_request-total req = search total_rules

some_answer :
    (intl : Intl) (endpoint : Endpoint) (req : Request) (w : World)
    → (r : Response) × ((run_route intl req (some endpoint) w).0 ≡ ok (some r))
unfolding ◌>>=◌
some_answer intl endpoint req w =
    go (async_handler intl endpoint req w) ((async_handler-total intl endpoint req).returns w)
  where
    go :
        (x : Result Response × World)
        → (a : Response) × (x.0 ≡ ok a)
        → (r : Response) × ((continue_with (λ t. pure (some t)) x).0 ≡ ok (some r))
    go (ok a, v) h = (a, refl)
    go (thrown e, v) h = cc

-- What the router owes a request: an answer wherever a route matches, `OK` for a body over the limit
-- and the status 500 for one that cannot be read.
abbrev pub Owed : Incoming → Option Response → Type 0
Owed (parsed req) o = (o ≡ none) ↔ (route req.method req.path ≡ none)
Owed (oversized req size limit) o = o ≡ some ok_response
Owed (unreadable req) o = o ≡ some (send_plain_text (codes "Internal Server Error") 500)

routed :
    (intl : Intl) (req : Request) (e : Option Endpoint) (w : World)
    → (o : Option Response) × ((run_route intl req e w).0 ≡ ok o) × ((o ≡ none) ↔ (e ≡ none))
routed intl req none w = (none, refl, (λ _. refl, λ _. refl))
routed intl req (some endpoint) w =
    let (r, e) = some_answer intl endpoint req w in (some r, e, (λ h. cc, λ h. cc))

after_log :
    (intl : Intl) (req : Request) (e : Option Endpoint) (w : World)
    → (o : Option Response) × (((log_raw_request req >> run_route intl req e) w).0 ≡ ok o)
      × ((o ≡ none) ↔ (e ≡ none))
unfolding ◌>>◌
after_log intl req e w = go (log_raw_request req w) ((log_raw_request-total req).returns w)
  where
    go :
        (x : Result (Unit {0}) × World)
        → (a : Unit {0}) × (x.0 ≡ ok a)
        → (o : Option Response) × ((continue_with (λ _. run_route intl req e) x).0 ≡ ok o)
          × ((o ≡ none) ↔ (e ≡ none))
    go (ok a, v) h = routed intl req e v
    go (thrown x, v) h = cc

oversized_answer :
    (req : Request) (size limit : Option ℕ) (db : Db) (now : ℕ) (cuid : ℕ → String)
    (l : List (Option DbError))
    → ((handle_error req (too_large size limit) >>= λ r. pure (some r))
        (record { db = db; now = now; faults = l; cuid = cuid })).0
      ≡ ok (some ok_response)
unfolding handle_error write try_catch ◌>>=◌ ◌>>◌
oversized_answer req size limit db now cuid [] = refl
oversized_answer req size limit db now cuid (none ∷ l) = refl
oversized_answer req size limit db now cuid (some e ∷ l) = refl

-- Whatever statements fail, the router does not reject: a request that a route matches gets an
-- answer, one that none matches gets none, one whose body is over the limit is told OK, and one whose
-- body cannot be read gets the status 500.
pub adms_router-Owed :
    (intl : Intl) (incoming : Incoming) (w : World)
    → (o : Option Response) × ((adms_router intl incoming w).0 ≡ ok o) × Owed incoming o
unfolding adms_router handle_error ◌>>=◌
adms_router-Owed intl (parsed req) w = after_log intl req (route req.method req.path) w
adms_router-Owed intl (oversized req size limit) w =
    (some ok_response, oversized_answer req size limit w.db w.now w.cuid w.faults, refl)
adms_router-Owed intl (unreadable req) w =
    (some (send_plain_text (codes "Internal Server Error") 500), refl, refl)

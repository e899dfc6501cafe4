-- ===== src/Middleware/Headers.antt =====
-- middleware/middleware.go: the headers and the status of its refusals.
use cosmos_pay.Prelude.{
  String, List, [], ◌∷◌, ◌≡◌, refl, some, none, arith, eq_iff, ◌==◌, if◌then◌else◌,
}
use cosmos_pay.Types.{PaymentRequirements}
use cosmos_pay.Http.{get_header, set_header, ResponseWriter, status_payment_required}
use cosmos_pay.Middleware.{requirements_header, write_required, write_failure}

pub get_header-set_header :
    (k j v : String) (h : List (String × String))
    → get_header j (set_header k v h) ≡ (if k == j then v else get_header j h)
unfolding get_header set_header
get_header-set_header k j v [] = refl
get_header-set_header k j v ((i, w) ∷ h) =
    ground (arith, get_header-set_header k j v h, eq_iff i k, eq_iff i j, eq_iff k j)

-- The two refusals write 402 and the requirements.
abbrev pub Refuses : PaymentRequirements → ResponseWriter → Type 0
Refuses req w =
    (w.status ≡ some status_payment_required)
    × (get_header "PAYMENT-REQUIRED" w.header ≡ requirements_header req)

pub write_required-Refuses :
    (w : ResponseWriter) (req : PaymentRequirements)
    → w.status ≡ none
    → Refuses req (write_required w req)
unfolding write_required
write_required-Refuses w req h = (ground arith, grind (arith, get_header-set_header))

pub write_failure-Refuses :
    (w : ResponseWriter) (req : PaymentRequirements) (code : String)
    → w.status ≡ none
    → Refuses req (write_failure w req code)
unfolding write_failure
write_failure-Refuses w req code h = (ground arith, grind (arith, get_header-set_header))

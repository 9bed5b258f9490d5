-- ===== src/Graph/GiftCertificates/Atomicity.antt =====
-- `AddGiftCertificates` and its transaction.
use filmstund.Base.{ℕ, ◌≡◌, Bool, true, false, none, List, [], ◌∷◌, arith}
use filmstund.Database.{Uuid, World, exec, attempt, pure, raise, ◌>>=◌}
use filmstund.Database.Atomicity.{
  AllOrNothing, Handles, IsStep, Afterwards, atomic_rules, bind-IsStep, statement-IsStep,
}
use filmstund.Graph.Model.{GraphError, user_does_not_exist, fetch_user_failed}
use filmstund.Graph.GiftCertificates.{
  GiftCertificateInput, add_each, add_gift_certificates, fetch_user,
}

-- The errors of `fetchUser`, after the commit.
abbrev pub is_of_user : GraphError → Bool
is_of_user user_does_not_exist = true
is_of_user fetch_user_failed = true
is_of_user _ = false

add_each-IsStep :
    (me : Uuid) (next_year : ℕ) (inputs : List GiftCertificateInput)
    → IsStep (add_each me next_year inputs)
unfolding add_each
add_each-IsStep me next_year [] = search atomic_rules
add_each-IsStep me next_year (c ∷ rest) =
    bind-IsStep _ _ (statement-IsStep _ _) λ _. add_each-IsStep me next_year rest

fetch_user-Afterwards : (me : Uuid) → Afterwards is_of_user (fetch_user me)
unfolding fetch_user exec attempt ◌>>=◌ pure raise
fetch_user-Afterwards me = record { at = λ w. ground arith }

add_gift_certificates-Handles :
    (me : Uuid) (next_year : ℕ) (inputs : List GiftCertificateInput)
    → Handles is_of_user (add_gift_certificates me next_year inputs)
unfolding add_gift_certificates
add_gift_certificates-Handles me next_year inputs =
    search (atomic_rules, add_each-IsStep, fetch_user-Afterwards) depth 20

-- `AddGiftCertificates` adds all the certificates or none: it leaves no transaction open, and if
-- it returns an error other than those of the query after its commit the committed tables are as
-- they were, where no transaction was open before.
add_gift_certificates-AllOrNothing :
    (me : Uuid) (next_year : ℕ) (inputs : List GiftCertificateInput) (w : World)
    → w.tx ≡ none
    → AllOrNothing is_of_user w (add_gift_certificates me next_year inputs w)
add_gift_certificates-AllOrNothing me next_year inputs w =
    (add_gift_certificates-Handles me next_year inputs).at w

-- ===== src/Users/Tests.antt =====
-- Two addresses, masked, and a user who is created.
use w1t.Base.{◌≡◌, ◌++◌, refl, [], ◌∷◌, some, arith}
use w1t.Users.{Bytes, mask_email, get_masked_email, byte_text, index_of_at, stars}
use w1t.Samples.{empty_tables, at_rest, test_env}
use w1t.Action.Rules.{Ends}
use w1t.Users.Service.{CreateUserRequest, create}
use w1t.Users.Entry.{Enrolled}
use w1t.Users.Enrolment.{create-Enrolled}
use w1t.Users.Masking.{mask_email-local, get_masked_email-hides}

-- `bob@x` and `bea@x`, and `é@x`.
abbrev bob : Bytes
bob = 98 ∷ 111 ∷ 98 ∷ 64 ∷ 120 ∷ []

abbrev bea : Bytes
bea = 98 ∷ 101 ∷ 97 ∷ 64 ∷ 120 ∷ []

abbrev accented : Bytes
accented = 195 ∷ 169 ∷ 64 ∷ 120 ∷ []

-- The mask splits the first letter: `Ã*@x`.
accented_masked : mask_email accented ≡ 195 ∷ 131 ∷ 42 ∷ 64 ∷ 120 ∷ []
unfolding mask_email index_of_at stars
accented_masked = refl

mask_email-local_example : mask_email bob ≡ byte_text 98 ++ (stars 2 ++ 64 ∷ 120 ∷ [])
mask_email-local_example =
    mask_email-local 98 (111 ∷ 98 ∷ []) (120 ∷ [])
      ((λ e. ground arith), ((λ e. ground arith), ((λ e. ground arith), tt)))

get_masked_email-hides_example :
    get_masked_email (λ (email : Bytes). some email) (some bob)
    ≡ get_masked_email (λ (email : Bytes). some email) (some bea)
get_masked_email-hides_example =
    get_masked_email-hides (λ (email : Bytes). some email) bob bea 98 (111 ∷ 98 ∷ [])
      (101 ∷ 97 ∷ []) (120 ∷ []) refl refl
      ((λ e. ground arith), ((λ e. ground arith), ((λ e. ground arith), tt)))
      ((λ e. ground arith), ((λ e. ground arith), tt)) refl

abbrev bob_request : CreateUserRequest
bob_request = record { username = "bob"; password = "secret"; display_name = "Bob"; email = bob }

create-Enrolled_example :
    Ends
      (λ row v. Enrolled test_env (some (7 ∷ 7 ∷ [])) bob_request 1 row empty_tables v.db)
      (λ e v. v.db ≡ empty_tables)
      (create (some (7 ∷ 7 ∷ [])) bob_request 1 (at_rest empty_tables))
create-Enrolled_example = create-Enrolled (some (7 ∷ 7 ∷ [])) bob_request 1 (at_rest empty_tables)

-- ===== src/Application/UseCase/Tests.antt =====
-- The theorems on a use case whose state is the log of its calls, and whose last step raises.
use converse_os.Prelude.{◌≡◌, refl, String, List, [], ◌∷◌, ◌++◌, ok, raise, if◌then◌else◌}
use converse_os.Domain.Exceptions.{other}
use converse_os.Application.UseCase.{UseCase, Transaction, check}

abbrev Log : Type 0
Log = List String

abbrev noted : String → Log → Log
noted call log = log ++ (call ∷ [])

abbrev transaction : Transaction Log
transaction = record {
  enter = λ s. (ok tt, noted "begin" s);
  exit = λ raised s. (ok tt, noted (if raised then "rollback" else "commit") s);
}

abbrev notifying : UseCase String String Log
notifying = record {
  validate = λ i s. (ok tt, noted "validate" s);
  authorize = λ i s. (ok tt, noted "authorize" s);
  execute = λ i s. (ok i, noted "execute" s);
  post_execute = λ i o s. (raise (other "bus"), noted "notify" s);
}

abbrev refusing : UseCase String String Log
refusing = record notifying { authorize = λ i s. (raise (other "denied"), s) }

abbrev checked : Log
checked = "validate" ∷ "authorize" ∷ []

notifying-check : check notifying "agent" [] ≡ (ok tt, checked)
unfolding check
notifying-check = refl

refusing-check : check refusing "agent" [] ≡ (raise (other "denied"), "validate" ∷ [])
unfolding check
refusing-check = refl

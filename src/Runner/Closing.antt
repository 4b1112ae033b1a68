-- ===== src/Runner/Closing.antt =====
-- What is left in PROXY_JOBS when `run` is over.
use api_scanner.Common.{true, false, Bool, ◌⊎◌, List, [], ◌∷◌, ◌++◌, ◌≡◌, refl, Option, none, some}
use api_scanner.Common.Text.{Text, codes, text_eq_refl}
use api_scanner.Runner.{World, RunRequest, Server, proxy_job}
use api_scanner.Common.Dict.{lookup, lookup-insert}
use api_scanner.Runner.Run.{is_wuppie, register}

-- With these credentials, read or not, a file of `_wuppie_command` cannot be written: that of the
-- specification, or that of the credentials if there are any.
abbrev pub CannotPrepare : (Text → Bool) → Text → Option (List (Text × Text)) → Type 0
CannotPrepare writes directory none = Unit
CannotPrepare writes directory (some []) = writes (directory ++ codes "/openapi.json") ≡ false
CannotPrepare writes directory (some (header ∷ headers)) =
    (writes (directory ++ codes "/openapi.json") ≡ false)
    ⊎ (writes (directory ++ codes "/authentication.json") ≡ false)

module _ (w : World) (wuppie : is_wuppie w ≡ true) where
  pub lookup-register :
      (s : Server) (request : RunRequest) (id : Text)
      → lookup id (register w s request id).jobs ≡ some (proxy_job w request)
  unfolding register
  lookup-register s request id = rw wuppie (rw lookup-insert (rw text_eq_refl refl))

-- ===== src/Orchestrator/Triple.antt =====
-- What holds before an action and after it, whether it returns or raises.
use api_scanner.Common.{◌≡◌, refl, ◌∙◌}
use api_scanner.Orchestrator.{Db, Stop, Result, ok, stop, Exec, continue, ◌>>=◌, pure, raise}

-- `Q` of the value if there is one, `E` if the action raises.
abbrev pub Post : {A : Type 0} → (A → Db → Type 0) → (Db → Type 0) → Result A → Db → Type 0
Post Q E (ok a) db = Q a db
Post Q E (stop e) db = E db

pub record Triple {A : Type 0} (P : Db → Type 0) (m : Exec A) (Q : A → Db → Type 0)
    (E : Db → Type 0) : Type 0 where
  pub at : (db : Db) → P db → Post Q E (m db).0 (m db).1

module _ {A B : Type 0} {Q : A → Db → Type 0} {R : B → Db → Type 0} {E : Db → Type 0} where
  continue-Post :
      (r : Result A) (db : Db) (f : A → Exec B)
      → Post Q E r db
      → ((a : A) → Triple (Q a) (f a) R E)
      → Post R E (continue r f db).0 (continue r f db).1
  continue-Post (ok a) db f h t = (t a).at db h
  continue-Post (stop e) db f h t = h

  pub >>=-Triple :
      {P : Db → Type 0} (m : Exec A) (f : A → Exec B)
      → Triple P m Q E
      → ((a : A) → Triple (Q a) (f a) R E)
      → Triple P (m >>= f) R E
  >>=-Triple m f t k = record { at = λ db h. continue-Post (m db).0 (m db).1 f (t.at db h) k }

-- The action writes no line to the log and stores no report.
pub record IsQuiet {A : Type 0} (m : Exec A) : Type 0 where
  pub log : (db : Db) → (m db).1.log ≡ db.log
  pub reports : (db : Db) → (m db).1.reports ≡ db.reports

module _ {A B : Type 0} where
  continue-log :
      (r : Result A) (db : Db) (f : A → Exec B)
      → ((a : A) → IsQuiet (f a))
      → (continue r f db).1.log ≡ db.log
  continue-log (ok a) db f q = (q a).log db
  continue-log (stop e) db f q = refl

  continue-reports :
      (r : Result A) (db : Db) (f : A → Exec B)
      → ((a : A) → IsQuiet (f a))
      → (continue r f db).1.reports ≡ db.reports
  continue-reports (ok a) db f q = (q a).reports db
  continue-reports (stop e) db f q = refl

  pub >>=-IsQuiet :
      (m : Exec A) (f : A → Exec B) → IsQuiet m → ((a : A) → IsQuiet (f a)) → IsQuiet (m >>= f)
  >>=-IsQuiet m f q k = record {
    log = λ db. continue-log (m db).0 (m db).1 f k ∙ q.log db;
    reports = λ db. continue-reports (m db).0 (m db).1 f k ∙ q.reports db;
  }

pub pure-IsQuiet : {A : Type 0} (a : A) → IsQuiet (pure a)
pure-IsQuiet a = record { log = λ db. refl; reports = λ db. refl }

pub raise-IsQuiet : {A : Type 0} (e : Stop) → IsQuiet (raise {A = A} e)
raise-IsQuiet e = record { log = λ db. refl; reports = λ db. refl }

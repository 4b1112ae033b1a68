-- ===== src/Custom/Evidence/Patterns.antt =====
-- The regular expressions of app/security_tests/input_validation.py.
use api_scanner.Common.{List, [], ◌∷◌}
use api_scanner.Common.Text.{Text, codes}

-- The name of a group of patterns, and the source of one.
abbrev pub Pattern : Type 0
Pattern = Text × Text

abbrev pub sql_error_patterns : List Pattern
sql_error_patterns =
    (codes "PostgreSQL", codes "(?i)(postgresql|pg_query|psycopg|unterminated quoted string)")
    ∷ (codes "MySQL/MariaDB", codes "(?i)(mysql|mariadb|you have an error in your sql syntax)")
    ∷ (codes "SQLite", codes "(?i)(sqlite[_ ]?error|sqlite3?\\.|near [\"'].*syntax error)")
    ∷ (
      codes "Microsoft SQL Server",
      codes "(?i)(sql server|sqlstate|unclosed quotation mark|odbc sql)",
    )
    ∷ (
      codes "Oracle",
      codes "(?i)(ora-\\d{4,5}|oracle.*error|quoted string not properly terminated)",
    )
    ∷ (codes "JDBC", codes "(?i)(jdbc.*exception|java\\.sql\\.sqlexception)")
    ∷ (codes "Generic SQL", codes "(?i)(sql syntax|syntax error.*sql|database error|query failed)")
    ∷ []

abbrev pub nosql_error_patterns : List Pattern
nosql_error_patterns =
    (codes "MongoDB", codes "(?i)(mongo(error|servererror)|mongodb|bson|mongoose.*(cast|error))")
    ∷ (codes "CouchDB", codes "(?i)(couchdb|invalid.*selector|mango query)")
    ∷ (codes "NoSQL operator", codes "(?i)(unknown|invalid|unsupported).*(\\$ne|\\$where|operator)")
    ∷ []

abbrev pub traversal_markers : List Pattern
traversal_markers =
    (codes "Unix passwd file", codes "(?m)^root:x:0:0:")
    ∷ (codes "Unix passwd file", codes "(?m)^(daemon|bin|nobody):x?:\\d+:\\d+:")
    ∷ (
      codes "Windows initialization file",
      codes "(?im)^\\s*\\[(fonts|extensions|mci extensions|files)\\]\\s*$",
    )
    ∷ (codes "controlled traversal canary", codes "API_SCANNER_TRAVERSAL_CANARY")
    ∷ []

abbrev pub path_hint : Text
path_hint =
    codes
      "(?i)(file|filename|filepath|path|directory|dir|folder|document|template|include|download|attachment|object|key|name)"

abbrev pub url_hint : Text
url_hint =
    codes "(?i)(url|uri|redirect|return|next|continue|destination|dest|callback|webhook|link|to)"

abbrev pub command_hint : Text
command_hint = codes "(?i)(cmd|command|exec|execute|shell|process|ping|host|hostname|ip|lookup)"

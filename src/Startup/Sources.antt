-- ===== src/Startup/Sources.antt =====
-- The names of databases in data sources, from cli/server/dbutil/dbutil.go: getDBName, getConnStr and the
-- expression in NewUserRegistryMySQL. A regular expression of Go takes the leftmost match, the first
-- alternative that fits there, and the longest run.
use copfvtci.Prelude.{
  ℕ, Bool, false, not, ◌&&◌, ◌||◌, List, [], ◌∷◌, ◌++◌, Text, codes, drop, is_empty, leb, ◌==◌,
  if◌then◌else◌,
}
use copfvtci.Strings.{to_lower, has_prefix}

-- ClientTLSConfig of lib/tls/tls.go
pub record ClientTls : Type 0 where
  pub ca_cert_files : List Text
  pub cert_file : Text
  pub key_file : Text

-- `\s`
abbrev pub is_space : ℕ → Bool
is_space c = c == 32 || (leb 9 c && leb c 10) || (leb 12 c && leb c 13)

-- `[^\s]+`
abbrev pub word : Text → Text
word [] = []
word (c ∷ s) = let rest = word s in if is_space c then [] else c ∷ rest

-- `[^\/?]+`
abbrev pub path_name : Text → Text
path_name [] = []
path_name (c ∷ s) = let rest = path_name s in if c == 47 || c == 63 then [] else c ∷ rest

abbrev pub dbname : Text
dbname = b'd' ∷ b'b' ∷ b'n' ∷ b'a' ∷ b'm' ∷ b'e' ∷ b'=' ∷ []

-- `dbname=([^\s]+)` at the beginning of the text: what the group matches
unfoldable pub name_at : Text → Text
name_at s = if has_prefix s dbname then word (drop 7 s) else []

-- one of the alternatives `\/([^\/?]+)` and `dbname=([^\s]+)` at the beginning of the text
unfoldable pub match_at : Text → Text
match_at [] = []
match_at (c ∷ s) = if c == 47 then path_name s else name_at (c ∷ s)

-- FindStringSubmatch, and the one of the two groups that is not empty
unfoldable pub find_name : Text → Text
find_name [] = []
find_name (c ∷ s) =
    let rest = find_name s in if is_empty (match_at (c ∷ s)) then rest else match_at (c ∷ s)

unfoldable pub get_db_name : Text → Text
get_db_name datasource = find_name (to_lower datasource)

-- ReplaceAllString by the empty text; the Boolean says that a match goes on here
unfoldable pub replace_names : Bool → Text → Text
replace_names inside [] = []
replace_names inside (c ∷ s) =
    let gone = inside && not (is_space c) || not (is_empty (name_at (c ∷ s))) in
    let rest = replace_names gone s in if gone then rest else c ∷ rest

unfoldable pub get_conn_str : Text → Text
get_conn_str datasource = replace_names false datasource

-- `[a-zA-z]`: from A to z
abbrev pub a_to_z : ℕ → Bool
a_to_z c = leb 65 c && leb c 122

-- ReplaceAllString of `\/([a-zA-z]+)` by "/"; the Boolean says that the run after a slash goes on here
unfoldable pub replace_paths : Bool → Text → Text
replace_paths inside [] = []
replace_paths inside (c ∷ s) =
    let gone = inside && a_to_z c in
    let rest = replace_paths (gone || c == 47) s in if gone then rest else c ∷ rest

unfoldable pub mysql_conn_str : Text → Text
mysql_conn_str datasource = replace_paths false datasource

-- `fmt.Sprintf("%s sslrootcert=%s", connStr, root)`
abbrev root_option : List Text → Text
root_option [] = []
root_option (root ∷ roots) = codes " sslrootcert=" ++ root

-- the connection string of NewUserRegistryPostgres
unfoldable pub postgres_conn_str : ClientTls → Text → Text
postgres_conn_str client datasource =
    get_conn_str datasource
    ++ root_option client.ca_cert_files
    ++ codes " sslcert="
    ++ client.cert_file
    ++ codes " sslkey="
    ++ client.key_file

-- `connStr + " dbname=" + dbName`, with which it makes the tables
unfoldable pub with_db_name : ClientTls → Text → Text
with_db_name client datasource =
    postgres_conn_str client datasource ++ codes " dbname=" ++ get_db_name datasource

-- ===== src/Cop.antt =====
-- cli/cop.go, with the tables of commands of cli/client/client.go and cli/server/server.go: the main program.
-- CFSSL's cli.Start, which takes a table and runs the command that the next argument names, is a parameter.
use copfvtci.Prelude.{ℕ, List, [], ◌∷◌, Text, text_eq, codes, if◌then◌else◌}
use copfvtci.Errors.{Result, ok, err}

-- the names of the commands of client.Command, server.Command and cfsslCommand
abbrev pub client_commands : List Text
client_commands = codes "register" ∷ codes "enroll" ∷ codes "reenroll" ∷ codes "revoke" ∷ []

abbrev pub server_commands : List Text
server_commands = codes "init" ∷ codes "start" ∷ []

abbrev pub cfssl_commands : List Text
cfssl_commands =
    codes "bundle"
    ∷ codes "certinfo"
    ∷ codes "sign"
    ∷ codes "serve"
    ∷ codes "version"
    ∷ codes "genkey"
    ∷ codes "gencert"
    ∷ codes "gencrl"
    ∷ codes "ocspdump"
    ∷ codes "ocsprefresh"
    ∷ codes "ocspsign"
    ∷ codes "ocspserve"
    ∷ codes "selfsign"
    ∷ codes "scan"
    ∷ codes "info"
    ∷ codes "print-defaults"
    ∷ codes "revoke"
    ∷ []

abbrev exit_code : Result (Unit {0}) → ℕ
exit_code (ok u) = 0
exit_code (err e) = 1

-- COPMain: the exit code. `start` is cli.Start on a table and the arguments that are left.
unfoldable pub cop_main : (List Text → List Text → Result (Unit {0})) → List Text → ℕ
cop_main start [] = 1
cop_main start (program ∷ []) = 1
cop_main start (program ∷ cmd ∷ args) =
    if text_eq cmd (codes "client")
    then exit_code (start client_commands (cmd ∷ args))
    else if text_eq cmd (codes "server")
    then exit_code (start server_commands (cmd ∷ args))
    else if text_eq cmd (codes "cfssl")
    then exit_code (start cfssl_commands (cmd ∷ args))
    else 1

-- ===== src/Server/Initialized.antt =====
-- What initMain of cli/server/init.go leaves on the disk.
use copfvtci.Prelude.{
  ◌++◌, ◌≡◌, refl, sym, ap, ◌∙◌, false, some, List, [], ◌∷◌, Text, text_eq, text_eq_refl, arith,
  codes, Bool-cases, inl, inr,
}
use copfvtci.Errors.{
  ok, ok-injective, Run, finished, errored, crashed, exited, run_of, run_of-finished,
}
use copfvtci.Util.Json.{Files, written}
use copfvtci.Server.Serving.{
  Dirs, among, home_dir, create_home, go_on, and_then, answer, in_dirs, InitLib, first_argument,
  write_or_exit, init_main,
}

go_on_state :
    {S A B : Type 0} (r : Run A × S) (rest : A → S → Run B × S) (b : B)
    → (go_on r rest).0 ≡ finished b
    → (a : A) × (r.0 ≡ finished a) × (go_on r rest ≡ rest a r.1) × ((rest a r.1).0 ≡ finished b)
go_on_state (finished a, s) rest b h = (a, refl, refl, h)
go_on_state (errored e, s) rest b h = absurd (cc)
go_on_state (crashed, s) rest b h = absurd (cc)
go_on_state (exited, s) rest b h = absurd (cc)

write_or_exit-finished :
    (file buf : Text) (s : Dirs × Files)
    → (write_or_exit file buf s).0 ≡ finished tt
    → (write_or_exit file buf s).1 ≡ (s.0, written file buf s.1)
write_or_exit-finished file buf (dirs, files) h = elim (Bool-cases (files.refuses file)) [
  | inl no_write ↦ absurd (cc (sym (rw no_write at h)))
  | inr writes ↦ rw writes refl
]

text_eq-append : (p s t : Text) → text_eq (p ++ s) (p ++ t) ≡ text_eq s t
unfolding text_eq
text_eq-append [] s t = refl
text_eq-append (c ∷ p) s t = ground (arith, text_eq-append p s t)

-- the two files
abbrev pub cert_path : Text → Text
cert_path home = home ++ codes "/server-cert.pem"

abbrev pub key_path : Text → Text
key_path home = home ++ codes "/server-key.pem"

paths_differ : (home : Text) → text_eq (cert_path home) (key_path home) ≡ false
unfolding text_eq
paths_differ home = text_eq-append home (codes "/server-cert.pem") (codes "/server-key.pem")

create_home-home :
    (getenv : Text → Text) (d : Dirs) (home : Text)
    → (create_home getenv d).0 ≡ ok home
    → home ≡ home_dir getenv
unfolding create_home
create_home-home getenv d home h = elim (Bool-cases (among (home_dir getenv) d.there)) [
  | inl there ↦ sym (ok-injective (rw there at h))
  | inr missing ↦ elim (Bool-cases (d.stat_fails (home_dir getenv))) [
    | inl fails ↦ sym (ok-injective (rw (missing, fails) at h))
    | inr answers ↦ elim (Bool-cases (d.mkdir_fails (home_dir getenv))) [
      | inl refused ↦ absurd (cc (sym (rw (missing, answers, refused) at h)))
      | inr makes ↦ sym (ok-injective (rw (missing, answers, makes) at h))
    ]
  ]
]

-- the two writes
both_written :
    (home cert key : Text) (s : Dirs × Files)
    → (and_then (write_or_exit (cert_path home) cert) (λ _. write_or_exit (key_path home) key) s).0
      ≡ finished tt
    → (and_then (write_or_exit (cert_path home) cert) (λ _. write_or_exit (key_path home) key) s).1
      ≡ (s.0, written (key_path home) key (written (cert_path home) cert s.1))
both_written home cert key s h =
    let (u, e, st, h1) = go_on_state (write_or_exit (cert_path home) cert s) _ tt h in
    ap (λ x. x.1) st
    ∙ write_or_exit-finished (key_path home) key _ h1
    ∙ ap (λ x. (x.0, written (key_path home) key x.1))
        (write_or_exit-finished (cert_path home) cert s e)

-- what a reader of the two files finds
written_files :
    (home cert key : Text) (files : Files)
    → ((written (key_path home) key (written (cert_path home) cert files)).content (key_path home)
        ≡ some key)
      × ((written (key_path home) key (written (cert_path home) cert files)).content
            (cert_path home)
          ≡ some cert)
written_files home cert key files = (
  rw (text_eq_refl (key_path home)) refl,
  rw (paths_differ home, text_eq_refl (cert_path home)) refl,
)

-- If initMain returns without an error, it made a key and a certificate for the request in the file that
-- its first argument names, and they are in the files server-key.pem and server-cert.pem of the home
-- directory, whatever was in them before. All other files are as they were.
pub init_main_lem :
    {Request : Type 0} (lib : InitLib Request) (getenv : Text → Text) (args : List Text)
    (dirs : Dirs) (files : Files)
    → (init_main lib getenv args (dirs, files)).0 ≡ finished tt
    → (file : Text) × (body : Text) × (req : Request) × (cert : Text) × (key : Text)
      × (first_argument args ≡ ok file)
      × (lib.read_stdin file ≡ ok body)
      × (lib.parse_request body ≡ ok req)
      × (lib.init_ca req ≡ ok (cert, key))
      × ((init_main lib getenv args (dirs, files)).1.1
          ≡ written
              (key_path (home_dir getenv))
              key
              (written (cert_path (home_dir getenv)) cert files))
      × ((init_main lib getenv args (dirs, files)).1.1.content (key_path (home_dir getenv))
          ≡ some key)
      × ((init_main lib getenv args (dirs, files)).1.1.content (cert_path (home_dir getenv))
          ≡ some cert)
unfolding init_main
init_main_lem lib getenv args dirs files h =
    let (file, e1, s1, h1) =
      go_on_state (answer (run_of (first_argument args)) (dirs, files)) _ tt h in
    let (body, e2, s2, h2) =
      go_on_state (answer (run_of (lib.read_stdin file)) (dirs, files)) _ tt h1 in
    let (req, e3, s3, h3) =
      go_on_state (answer (run_of (lib.parse_request body)) (dirs, files)) _ tt h2 in
    let (u, e4, s4, h4) = go_on_state (answer (run_of lib.default_csp) (dirs, files)) _ tt h3 in
    let ((cert, key), e5, s5, h5) =
      go_on_state (answer (run_of (lib.init_ca req)) (dirs, files)) _ tt h4 in
    let (home, e6, s6, h6) = go_on_state (in_dirs (create_home getenv) (dirs, files)) _ tt h5 in
    let at_home : home ≡ home_dir getenv =
      create_home-home getenv dirs home (run_of-finished _ home e6) in
    let last = both_written home cert key ((create_home getenv dirs).1, files) h6 in
    let left : (init_main lib getenv args (dirs, files)).1.1
        ≡ written (key_path (home_dir getenv)) key
            (written (cert_path (home_dir getenv)) cert files) =
      ap (λ x. x.1.1) (s1 ∙ s2 ∙ s3 ∙ s4 ∙ s5 ∙ s6)
      ∙ ap (λ x. x.1) last
      ∙ ap (λ d. written (key_path d) key (written (cert_path d) cert files)) at_home in
    let (of_key, of_cert) = written_files (home_dir getenv) cert key files in
    (
      file,
      body,
      req,
      cert,
      key,
      run_of-finished _ file e1,
      run_of-finished _ body e2,
      run_of-finished _ req e3,
      run_of-finished _ (cert, key) e5,
      left,
      ap (λ d. d.content (key_path (home_dir getenv))) left ∙ of_key,
      ap (λ d. d.content (cert_path (home_dir getenv))) left ∙ of_cert,
    )

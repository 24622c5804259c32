-- ===== src/Cli/Commands/Tests.antt =====
-- Two lists of commands, and two with the same command.
use poly_xrr.Common.{Bytes, codes, bytes_eq, true, List, [], ◌∷◌, ◌≡◌, ◌↔◌, refl}
use poly_xrr.Common.Maps.{lookup, insert}
use poly_xrr.Common.Strings.{to_lower}
use poly_xrr.Errors.{collision, ok, err}
use poly_xrr.Cli.Commands.{cassette_name, shim_file_name, in_names, entries, check_collisions}
use poly_xrr.Cli.Commands.Collisions.{AllAgree, check_collisions_iff}

abbrev shims : List Bytes
shims = codes "az" ∷ codes "gh.exe" ∷ codes "az" ∷ []

abbrev denied : List Bytes
denied = codes "git" ∷ []

check_collisions_iff_example :
    (check_collisions shims denied ≡ ok tt) ↔ AllAgree (entries shims denied)
check_collisions_iff_example = check_collisions_iff shims denied

passes : check_collisions shims denied ≡ ok tt
unfolding check_collisions lookup insert bytes_eq to_lower
passes = refl

collides : check_collisions shims (codes "AZ.cmd" ∷ []) ≡ err (collision (codes "az"))
unfolding check_collisions lookup insert bytes_eq to_lower
collides = refl

extension : cassette_name (codes ".exe") ≡ codes ".exe"
unfolding cassette_name bytes_eq to_lower
extension = refl

shim_file : shim_file_name (codes "gh") (codes "windows") ≡ codes "gh.exe"
unfolding shim_file_name bytes_eq to_lower
shim_file = refl

shim_file_given : shim_file_name (codes "gh.EXE") (codes "windows") ≡ codes "gh.EXE"
unfolding shim_file_name bytes_eq to_lower
shim_file_given = refl

named : in_names denied (codes "Git.exe") ≡ true
unfolding in_names bytes_eq to_lower
named = refl

-- ===== src/Utilities/Tests.antt =====
-- Texts with a splitter, without one, and with one behind the position.
use xmlhttp_request.Prelude.{codes, some, refl, none, ◌≡◌, []}
use xmlhttp_request.Utilities.{split}

split-colon : split (codes "a:b:c") b':' 0 ≡ some (codes "a", codes "b:c")
unfolding split
split-colon = refl

split-missing : split (codes "abc") b':' 0 ≡ some (codes "abc", codes "abc")
unfolding split
split-missing = refl

split-first : split (codes ":bc") b':' 0 ≡ some (codes ":bc", [])
unfolding split
split-first = refl

split-behind : split (codes "ab") b':' 3 ≡ none
unfolding split
split-behind = refl

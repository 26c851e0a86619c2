-- ===== src/Lock/Tokenize/Collapse/Tests.antt =====
-- Runs of `collapseUnstable`, and its theorems at concrete paths.
use script_jail.Base.{Text, codes, ◌≡◌, refl, arith}
use script_jail.Lock.Tokenize.Collapse.{collapse_unstable, is_word, is_camel}
use script_jail.Lock.Tokenize.Collapse.Runs.{IsHash}
use script_jail.Lock.Tokenize.Collapse.Stable.{cache_path, collapse_unstable-cache}

launcher : collapse_unstable (codes "$TMPDIR/xfs-021cebd2/husky") ≡ codes "$TMPDIR/<hash>/husky"
unfolding collapse_unstable
launcher = refl

content_name :
    collapse_unstable (codes "$CACHE/v3/0123456789abcdef-x/pkg.tmp.9Zq")
    ≡ codes "$CACHE/v3/<hash>/pkg.tmp<hash>"
unfolding collapse_unstable
content_name = refl

camel_name :
    collapse_unstable (codes "$CACHE/ReallyLongCamelName/a.tmp")
    ≡ codes "$CACHE/ReallyLongCamelName/a.tmp<hash>"
unfolding collapse_unstable
camel_name = refl

abbrev digest : Text
digest = codes "0123456789abcdef"

abbrev other_digest : Text
other_digest = codes "sha512_Zm9vYmFyYmF6"

digest-IsHash : IsHash digest
unfolding is_word is_camel
digest-IsHash = (refl, omega arith, refl)

other_digest-IsHash : IsHash other_digest
unfolding is_word is_camel
other_digest-IsHash = (refl, omega arith, refl)

collapse_unstable-cache_example :
    collapse_unstable (cache_path (codes "/v3") digest (codes ".tgz"))
    ≡ collapse_unstable (cache_path (codes "/v3") other_digest (codes ".tgz"))
unfolding is_word
collapse_unstable-cache_example =
    collapse_unstable-cache (codes "/v3") digest other_digest (codes ".tgz") digest-IsHash
      other_digest-IsHash refl

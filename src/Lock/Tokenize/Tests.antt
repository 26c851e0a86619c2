-- ===== src/Lock/Tokenize/Tests.antt =====
-- Runs of `tokenize` and its helpers, and the theorems on them at concrete paths.
use script_jail.Base.{
  true, none, some, Text, codes, ◌≡◌, refl, arith, text_eq, starts_with, sort_by,
}
use script_jail.Lock.Tokenize.{
  TokenizeRoots, strip_end, strip_trailing_slashes, canonicalize_tokenize_roots, path_has_prefix,
  candidates, pkg_prefix, find_prefix, render_token, rewrite_by, tokenize, is_inside_pkg,
  is_cross_package,
}
use script_jail.Lock.Tokenize.Collapse.{collapse_unstable}
use script_jail.Lock.Tokenize.Prefix.{Tokenizes, tokenize-Tokenizes}
use script_jail.Lock.Tokenize.Inside.{IsDeepest, is_inside_pkg-tokenize}

abbrev roots : TokenizeRoots
roots = record {
  repo = codes "/work/";
  node_modules = codes "/work/node_modules";
  home = codes "/root";
  tmp = codes "/tmp//";
  tmp_legacy = none;
  cache = codes "/cache";
}

abbrev pkg_dir : Text
pkg_dir = codes "/work/node_modules/a"

own_file : tokenize (codes "/work/node_modules/a/x.js") roots (some pkg_dir) ≡ codes "$PKG/x.js"
unfolding tokenize candidates pkg_prefix sort_by find_prefix path_has_prefix render_token rewrite_by
    starts_with text_eq
own_file = refl

other_package :
    tokenize (codes "/work/node_modules/ab") roots (some pkg_dir) ≡ codes "$NODE_MODULES/ab"
unfolding tokenize candidates pkg_prefix sort_by find_prefix path_has_prefix render_token rewrite_by
    starts_with text_eq
other_package = refl

unstable_name :
    tokenize (codes "/cache/v2/0123456789abcdef/x") (canonicalize_tokenize_roots roots) none
    ≡ codes "$CACHE/v2/<hash>/x"
unfolding tokenize candidates pkg_prefix sort_by find_prefix path_has_prefix render_token rewrite_by
    starts_with text_eq canonicalize_tokenize_roots strip_trailing_slashes strip_end
    collapse_unstable
unstable_name = refl

strip_root : strip_trailing_slashes (codes "///") ≡ codes "/"
unfolding strip_trailing_slashes strip_end
strip_root = refl

cross_package : is_cross_package (codes "$NODE_MODULES/ab") ≡ true
unfolding is_cross_package is_inside_pkg starts_with text_eq
cross_package = refl

tokenize-Tokenizes_example :
    Tokenizes roots
      (some pkg_dir)
      (codes "/work/x")
      (tokenize (codes "/work/x") roots (some pkg_dir))
tokenize-Tokenizes_example = tokenize-Tokenizes (codes "/work/x") roots (some pkg_dir)

pkg_dir-IsDeepest : IsDeepest pkg_dir roots
unfolding candidates pkg_prefix
pkg_dir-IsDeepest = (omega arith, (omega arith, (omega arith, (omega arith, (omega arith, tt)))))

is_inside_pkg-tokenize_example :
    is_inside_pkg (tokenize (codes "/work/node_modules/ab") roots (some pkg_dir))
    ≡ path_has_prefix (codes "/work/node_modules/ab") pkg_dir
is_inside_pkg-tokenize_example =
    is_inside_pkg-tokenize (codes "/work/node_modules/ab") roots b'/' (codes "work/node_modules/a")
      (unfold starts_with in refl) pkg_dir-IsDeepest

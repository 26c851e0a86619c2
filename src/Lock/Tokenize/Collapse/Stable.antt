-- ===== src/Lock/Tokenize/Collapse/Stable.antt =====
-- The unstable parts of names: hashes below `$CACHE`, and the launcher directories of Yarn below
-- `$TMPDIR`.
use script_jail.Base.{
  true, false, ◌&&◌, [], ◌∷◌, ◌++◌, suc, Text, codes, length, take, drop, all, ◌==◌, if◌then◌else◌,
  ◌≡◌, refl, sym, ap, subst, ◌⊎◌, ◌∙◌, arith, drop-append, ==_self, inl, inr, All-of_all,
}
use script_jail.Lock.Tokenize.Collapse.{
  hash_mark, is_word, collapse_runs, collapse_temp, hex_segment, collapse_launcher,
  collapse_unstable, is_hex, at_boundary,
}
use script_jail.Lock.Tokenize.Collapse.Runs.{
  IsHash, collapse_runs-append, collapse_temp-slash, collapse_unstable_lem, slash_not_word,
  EndsWord, collapse_temp-word, collapse_temp-EndsWord, collapse_runs-hash,
}

-- A path below `$CACHE` through the directories `a`, with the name `h` and what follows it.
abbrev pub cache_path : Text → Text → Text → Text
cache_path a h rest = (codes "$CACHE" ++ a) ++ b'/' ∷ (h ++ rest)

pub launcher-cache : (s : Text) → collapse_launcher (codes "$CACHE" ++ s) ≡ codes "$CACHE" ++ s
unfolding collapse_launcher
launcher-cache s = refl

cache_path_lem :
    (a h rest : Text)
    → IsHash h
    → EndsWord rest
    → collapse_unstable (cache_path a h rest)
      ≡ collapse_runs [] (codes "$CACHE" ++ a)
        ++ b'/' ∷ (hash_mark ++ collapse_runs [] (collapse_temp rest))
cache_path_lem a h rest hash e =
    collapse_unstable_lem (cache_path a h rest)
    ∙ ap (λ s. collapse_runs [] (collapse_launcher s))
        (collapse_temp-slash (codes "$CACHE" ++ a) (h ++ rest)
          ∙ ap (λ s. (codes "$CACHE" ++ a) ++ b'/' ∷ s)
              (collapse_temp-word h rest (All-of_all is_word h hash.0)))
    ∙ ap (collapse_runs []) (launcher-cache (a ++ b'/' ∷ (h ++ collapse_temp rest)))
    ∙ collapse_runs-append [] (codes "$CACHE" ++ a) (h ++ collapse_temp rest) b'/' slash_not_word
    ∙ ap (λ s. collapse_runs [] (codes "$CACHE" ++ a) ++ b'/' ∷ s)
        (collapse_runs-hash h (collapse_temp rest) hash (collapse_temp-EndsWord rest e))

-- Two paths below `$CACHE` that differ in one name behind a slash, each a hash (sixteen or more letters,
-- digits, `_` or `-`, and no camel-case word), collapse to the same text, if the path ends with the
-- hash or goes on with another unit, as with a slash or an extension.
pub collapse_unstable-cache :
    (a h k rest : Text)
    → IsHash h
    → IsHash k
    → EndsWord rest
    → collapse_unstable (cache_path a h rest) ≡ collapse_unstable (cache_path a k rest)
collapse_unstable-cache a h k rest hh hk e =
    cache_path_lem a h rest hh e ∙ sym (cache_path_lem a k rest hk e)

-- Hexadecimal digits in front of a boundary are no longer segment.
hex-boundary :
    (d rest : Text)
    → at_boundary rest ≡ true
    → (length (take (suc (length d)) (d ++ rest)) == suc (length d)
        && all is_hex (take (suc (length d)) (d ++ rest)))
      ≡ false
hex-boundary [] [] b = refl
hex-boundary [] (c ∷ rest) b = ground arith
hex-boundary (c ∷ d) rest b = ground (arith, hex-boundary d rest b)

take-length-append : (d rest : Text) → take (length d) (d ++ rest) ≡ d
take-length-append [] rest = refl
take-length-append (c ∷ d) rest = ap (◌∷◌ c) (take-length-append d rest)

hex_segment_of_hex :
    (d rest : Text)
    → all is_hex d ≡ true
    → at_boundary rest ≡ true
    → hex_segment (length d) (d ++ rest) ≡ true
unfolding hex_segment
hex_segment_of_hex d rest h b =
    rw (take-length-append d rest, drop-append d rest, h, b, ==_self (length d))

hex_segment-boundary :
    (d rest : Text) → at_boundary rest ≡ true → hex_segment (suc (length d)) (d ++ rest) ≡ false
unfolding hex_segment
hex_segment-boundary d rest b = ground (arith, hex-boundary d rest b)

-- Eight or nine lower-case hexadecimal digits.
abbrev pub IsLauncherHash : Text → Type 0
IsLauncherHash d = (all is_hex d ≡ true) × ((length d ≡ 8) ⊎ (length d ≡ 9))

launcher_step :
    (s : Text)
    → collapse_launcher (codes "$TMPDIR/xfs-" ++ s) ≡ (
        if hex_segment 9 s
        then codes "$TMPDIR/<hash>" ++ drop 9 s
        else if hex_segment 8 s
        then codes "$TMPDIR/<hash>" ++ drop 8 s
        else codes "$TMPDIR/xfs-" ++ s)
unfolding collapse_launcher
launcher_step s = refl

launcher_lem :
    (d rest : Text)
    → IsLauncherHash d
    → at_boundary rest ≡ true
    → collapse_launcher (codes "$TMPDIR/xfs-" ++ (d ++ rest)) ≡ codes "$TMPDIR/<hash>" ++ rest
launcher_lem d rest (hex, inl eight) b =
    let at9 =
      subst (λ n. hex_segment (suc n) (d ++ rest) ≡ false) eight (hex_segment-boundary d rest b) in
    let at8 =
      subst (λ n. hex_segment n (d ++ rest) ≡ true) eight (hex_segment_of_hex d rest hex b) in
    let left = subst (λ n. drop n (d ++ rest) ≡ rest) eight (drop-append d rest) in
    rw (launcher_step (d ++ rest), at9, at8, left)
launcher_lem d rest (hex, inr nine) b =
    let at9 =
      subst (λ n. hex_segment n (d ++ rest) ≡ true) nine (hex_segment_of_hex d rest hex b) in
    let left = subst (λ n. drop n (d ++ rest) ≡ rest) nine (drop-append d rest) in
    rw (launcher_step (d ++ rest), at9, left)

-- The launcher that Yarn writes below `$TMPDIR`, and a path `post` in it.
abbrev launcher_path : Text → Text → Text
launcher_path d post = codes "$TMPDIR/xfs-" ++ (d ++ b'/' ∷ post)

launcher_path_lem :
    (d post : Text)
    → IsLauncherHash d
    → collapse_unstable (launcher_path d post)
      ≡ collapse_runs [] (codes "$TMPDIR/<hash>" ++ b'/' ∷ collapse_temp post)
launcher_path_lem d post h =
    collapse_unstable_lem (launcher_path d post)
    ∙ ap (λ s. collapse_runs [] (collapse_launcher s))
        (collapse_temp-slash (codes "$TMPDIR/xfs-" ++ d) post)
    ∙ ap (collapse_runs []) (launcher_lem d (b'/' ∷ collapse_temp post) h refl)

-- Two paths below the launcher directory of Yarn that differ in its eight or nine digits collapse to
-- the same text.
collapse_unstable-launcher :
    (d e post : Text)
    → IsLauncherHash d
    → IsLauncherHash e
    → collapse_unstable (launcher_path d post) ≡ collapse_unstable (launcher_path e post)
collapse_unstable-launcher d e post hd he =
    launcher_path_lem d post hd ∙ sym (launcher_path_lem e post he)

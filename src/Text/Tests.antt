-- ===== src/Text/Tests.antt =====
-- Runs of the text functions, and their theorems at these inputs.
use libcosmos.Prelude.{◌≡◌, refl, true, false, List, [], ◌∷◌, codes, arith}
use libcosmos.Outcome.{Bytes, ok}
use libcosmos.Text.Strip.{strip}
use libcosmos.Text.Split.{split}
use libcosmos.Text.Split.Join.{join, keep_all, join-split}
use libcosmos.Text.Split.Parts.{no_flags, Cuts, split-Cuts}

split_flags :
    split 20 (codes ":a::b :c") (codes ":") (record { strip_parts = true; keep_empty = false }) 0
    ≡ ok (codes "a" ∷ codes "b" ∷ codes "c" ∷ [])
unfolding split strip
split_flags = refl

split_limit : split 20 (codes "a,b,c") (codes ",") no_flags 1 ≡ ok (codes "a" ∷ codes "b,c" ∷ [])
unfolding split
split_limit = refl

join-split_example :
    (parts : List Bytes) × (split 9 (codes "::a") (codes ":") keep_all 0 ≡ ok parts)
    × (join (codes ":") parts ≡ codes "::a")
join-split_example = join-split 58 [] 9 (codes "::a") (omega arith)

split-Cuts_example :
    (parts : List Bytes) × (split 9 (codes "::a:b") (codes ":") no_flags 0 ≡ ok parts)
    × Cuts (codes ":") (codes "::a:b") parts
split-Cuts_example = split-Cuts 58 [] 9 (codes "::a:b") (omega arith)

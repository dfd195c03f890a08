-- ===== src/Guest/Tags.antt =====
-- The tags that a guest is read with.
use rustproxmoxmcp.Prelude.{
  ◌≡◌, true, false, not, Option, List, [], ◌∷◌, arith, map, is_empty, Has, here, there, Has-cons,
  Has-of-keep, inl, inr,
}
use rustproxmoxmcp.Text.{Text, split, trim}
use rustproxmoxmcp.Text.Pieces.{lacks, split-lacks}
use rustproxmoxmcp.Text.Trim.{trim-trim, trim-all}
use rustproxmoxmcp.Guest.{parse_tags, or_empty}

pub record IsTag (tag : Text) : Type 0 where
  pub named : is_empty tag ≡ false
  pub single : lacks b';' tag ≡ true
  pub trimmed : trim tag ≡ tag

Has-map-trim :
    {t : Text} (ps : List Text) → Has t (map trim ps) → (p : Text) × Has p ps × (t ≡ trim p)
Has-map-trim [] m = elim m [ ]
Has-map-trim (p ∷ ps) m = elim (Has-cons m) [
  | inl e ↦ (p, here, e)
  | inr n ↦ let (q, k, e) = Has-map-trim ps n in (q, there k, e)
]

-- Whatever Proxmox reports, every tag that is read has a name, holds no semicolon, and has no white
-- space around it, so that it can be equal to a tag of the cluster's policy.
pub parse_tags-IsTag : (raw : Option Text) {tag : Text} → Has tag (parse_tags raw) → IsTag tag
unfolding parse_tags
parse_tags-IsTag raw m =
    let (listed, named) =
      Has-of-keep (λ t. not (is_empty t)) (map trim (split b';' (or_empty raw))) m in
    let (piece, k, e) = Has-map-trim (split b';' (or_empty raw)) listed in
    record {
      named = ground arith;
      single = rw e (trim-all _ piece (split-lacks b';' (or_empty raw) k));
      trimmed = rw e (trim-trim piece);
    }

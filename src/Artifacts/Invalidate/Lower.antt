-- ===== src/Artifacts/Invalidate/Lower.antt =====
-- What taking an approval back may do to a document: nothing, or put it back to `proposed`.
use homepilot_core_public.Base.{String, ◌≡◌, refl, ◌≢◌, ◌∙◌, sym, ◌⊎◌, true, false, arith}
use homepilot_core_public.Artifacts.Model.{
  ArtifactStatus, proposed, approved, is_composite, Result, ok,
}
use homepilot_core_public.Artifacts.World.{Doc, World, read_file}
use homepilot_core_public.Artifacts.Invalidate.{mentions}

abbrev pub IsOpen : ArtifactStatus → Type 0
IsOpen s = (s ≡ approved) ⊎ (s ≡ proposed)

pub data Lower (r r' : Result Doc) : Type 0 where
  kept : r ≡ r' → Lower r r'
  lowered :
      (d d' : Doc)
      → r ≡ ok d
      → r' ≡ ok d'
      → IsOpen d.fm.status
      → d'.fm.status ≡ proposed
      → Lower r r'

Lower-trans : (r s t : Result Doc) → Lower r s → Lower s t → Lower r t
Lower-trans r s t (kept e) (kept f) = kept (e ∙ f)
Lower-trans r s t (kept e) (lowered d d' p q o n) = lowered d d' (e ∙ p) q o n
Lower-trans r s t (lowered d d' p q o n) (kept f) = lowered d d' p (sym f ∙ q) o n
Lower-trans r s t (lowered d d' p q o n) (lowered e e' p' q' o' n') = lowered d e' p q' o n'

abbrev pub Lowered : World → World → Type 0
Lowered w v = (x : String) → Lower (read_file w.files x) (read_file v.files x)

pub Lowered-refl : (w : World) → Lowered w w
Lowered-refl w x = kept refl

pub Lowered-trans : (u v w : World) → Lowered u v → Lowered v w → Lowered u w
Lowered-trans u v w h k x =
    Lower-trans (read_file u.files x) (read_file v.files x) (read_file w.files x) (h x) (k x)

approved_before :
    (r r' : Result Doc) (d : Doc) → Lower r r' → r' ≡ ok d → d.fm.status ≡ approved → r ≡ ok d
approved_before r r' d (kept e) q a = e ∙ q
approved_before r r' d (lowered e e' p q' o n) q a =
    absurd (let same : e' ≡ d = cc in ground (arith, same))

-- What is approved in the end was so before, with the same document.
pub Lowered-approved :
    (u v : World)
    → Lowered u v
    → (x : String) (d : Doc) → read_file v.files x ≡ ok d
    → d.fm.status ≡ approved
    → read_file u.files x ≡ ok d
Lowered-approved u v h x d = approved_before (read_file u.files x) (read_file v.files x) d (h x)

-- The document at `x`, if it is there, is not approved.
abbrev pub NotApproved : World → String → Type 0
NotApproved w x = (d : Doc) → read_file w.files x ≡ ok d → d.fm.status ≢ approved

pub NotApproved-Lowered :
    (u v : World) (x : String) → Lowered u v → NotApproved u x → NotApproved v x
NotApproved-Lowered u v x h n d e a = n d (Lowered-approved u v h x d e a) a

-- `c` is no approved composite that mentions `id`.
abbrev pub Settled : String → World → String → Type 0
Settled id w c =
    (d : Doc)
    → read_file w.files c ≡ ok d
    → d.fm.status ≡ approved
    → is_composite d.fm.kind ≡ true
    → c ≢ id
    → mentions id d.body ≡ false

pub Settled-Lowered :
    (id : String) (u v : World) (c : String) → Lowered u v → Settled id u c → Settled id v c
Settled-Lowered id u v c h s d e a = s d (Lowered-approved u v h c d e a) a

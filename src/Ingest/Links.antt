-- ===== src/Ingest/Links.antt =====
-- The links of the topology under link traps: SetLinkActive of fwDCS/internal/store/timescale.go.
use dcim_data_reader.Prelude.{
  ◌≡◌, ◌⊎◌, inl, inr, refl, ap, Bool-cases, Bool, true, false, not, ◌&&◌, ◌||◌, List, [], ◌∷◌,
  String, str_eq, if◌then◌else◌,
}

-- A row of topology_links, as the update reads it. A device is named by its UUID.
pub record TopologyLink : Type 0 where
  pub layer : String
  pub src_device_id : String
  pub dst_device_id : String
  pub is_active : Bool

pub record LinkRow : Type 0 where
  pub link_id : String
  pub layer : String
  pub src_device_id : String
  pub src_hostname : String
  pub src_port : String
  pub dst_device_id : String
  pub dst_hostname : String
  pub dst_port : String

abbrev pub same_state : Bool → Bool → Bool
same_state true b = b
same_state false b = not b

abbrev layer_of : LinkRow → String
layer_of row = if str_eq row.layer "" then "network" else row.layer

-- The row is of the pair of devices, in either direction, and of its layer.
unfoldable pub of_link : LinkRow → TopologyLink → Bool
of_link row l =
    str_eq l.layer (layer_of row)
    && ((str_eq l.src_device_id row.src_device_id && str_eq l.dst_device_id row.dst_device_id)
        || (str_eq l.src_device_id row.dst_device_id && str_eq l.dst_device_id row.src_device_id))

-- SetLinkActive: whether a row has changed, and the rows.
unfoldable pub set_link_active : LinkRow → Bool → List TopologyLink → Bool × List TopologyLink
set_link_active row down [] = (false, [])
set_link_active row down (l ∷ ls) =
    let rest = set_link_active row down ls in
    if of_link row l && not (same_state l.is_active (not down))
    then (true, record l { is_active = not down } ∷ rest.1)
    else (rest.0, l ∷ rest.1)

-- The rows name one link, in the same direction or in the opposite one.
abbrev pub IsSameLink : LinkRow → LinkRow → Type 0
IsSameLink row row' =
    (row.layer ≡ row'.layer)
    × (((row.src_device_id ≡ row'.src_device_id) × (row.dst_device_id ≡ row'.dst_device_id))
        ⊎ ((row.src_device_id ≡ row'.dst_device_id) × (row.dst_device_id ≡ row'.src_device_id)))

or_comm : (a b : Bool) → (a || b) ≡ (b || a)
or_comm true true = refl
or_comm true false = refl
or_comm false true = refl
or_comm false false = refl

of_link-IsSameLink :
    (row row' : LinkRow) (l : TopologyLink) → IsSameLink row row' → of_link row l ≡ of_link row' l
unfolding of_link
of_link-IsSameLink row row' l (e, inl (s, d)) = rw (e, s, d) refl
of_link-IsSameLink row row' l (e, inr (s, d)) =
    rw (e, s, d)
      (ap (λ b. str_eq l.layer (layer_of row') && b)
        (or_comm
          (str_eq l.src_device_id row'.dst_device_id && str_eq l.dst_device_id row'.src_device_id)
          (str_eq l.src_device_id row'.src_device_id && str_eq l.dst_device_id row'.dst_device_id)))

of_link-is_active :
    (row : LinkRow) (l : TopologyLink) (b : Bool)
    → of_link row (record l { is_active = b }) ≡ of_link row l
unfolding of_link
of_link-is_active row l b = refl

same_state_refl : (b : Bool) → same_state b b ≡ true
same_state_refl true = refl
same_state_refl false = refl

and_false : (a b : Bool) → b ≡ true → (a && not b) ≡ false
and_false true b e = rw e refl
and_false false b e = refl

set_link_active_skip :
    (row : LinkRow) (down : Bool) (l : TopologyLink) (ls : List TopologyLink)
    → (of_link row l && not (same_state l.is_active (not down))) ≡ false
    → set_link_active row down ls ≡ (false, ls)
    → set_link_active row down (l ∷ ls) ≡ (false, l ∷ ls)
unfolding set_link_active
set_link_active_skip row down l ls h rest = rw (set_link_active, h, rest) refl

-- A second trap of the same direction for the same link changes no row.
pub set_link_active-again :
    (row row' : LinkRow) (down : Bool) (ls : List TopologyLink)
    → IsSameLink row row'
    → set_link_active row' down (set_link_active row down ls).1
      ≡ (false, (set_link_active row down ls).1)
unfolding set_link_active
set_link_active-again row row' down [] same = refl
set_link_active-again row row' down (l ∷ ls) same =
    let rest = set_link_active-again row row' down ls same in
    let linked = of_link-IsSameLink row row' l same in
    let later = (set_link_active row down ls).1 in
    elim (Bool-cases (of_link row l && not (same_state l.is_active (not down)))) [
      | inl hit ↦
          let kept : TopologyLink = record l { is_active = not down } in
          rw hit (
            set_link_active_skip row' down kept later
              (and_false (of_link row' kept) _ (same_state_refl (not down))) rest)
      | inr miss ↦ rw miss (set_link_active_skip row' down l later (rw (← linked) miss) rest)
    ]

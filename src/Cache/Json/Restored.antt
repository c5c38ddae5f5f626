-- ===== src/Cache/Json/Restored.antt =====
-- What the dates of a cached dict become.
use backend_prod_ready.Prelude.{
  Bool, Option, Text, [], any, codes, if◌then◌else◌, is_none, none, not, some, text_eq, true, ◌∷◌,
  ◌≡◌, Bool-cases, ap, arith, false, inl, inr, refl, sym, text_eq_iff, ◌∙◌,
}
use backend_prod_ready.Cache.Redis.{Reply, done}
use backend_prod_ready.Cache.Json.{
  FieldValue, JsonCodec, datetime, object, restore_dates, restore_value, text, other, restore,
}

-- `value[field] = …` changes that field alone.
pub record PutsField (codec : JsonCodec) : Type 0 where
  pub value_put :
      (field j : Text) (d : codec.Datetime) (o : codec.Object)
      → codec.value_at j (codec.put_datetime field d o)
        ≡ (if text_eq field j then some (datetime d) else codec.value_at j o)

abbrev pub is_date : Text → Bool
is_date field = any (text_eq field) (codes "created_at" ∷ codes "updated_at" ∷ [])

module _ (codec : JsonCodec) where
  open codec use {Object, Datetime, value_at, fromisoformat}

  -- A value, where a text that reads as a datetime is that datetime.
  abbrev pub as_date : Option (FieldValue Datetime) → Option (FieldValue Datetime)
  as_date (some (text t)) = elim (fromisoformat t) [
    | none ↦ some (text t)
    | some d ↦ some (datetime d)
  ]
  as_date v = v

  -- A value is no text, or one that reads as a datetime.
  abbrev pub reads : Option (FieldValue Datetime) → Bool
  reads (some (text t)) = not (is_none (fromisoformat t))
  reads _ = true

  module _ (puts : PutsField codec) where
    -- Restoring one field gives a dict in which it is a date and the others are as they were.
    abbrev Restored : Text → Object → Reply Object → Type 0
    Restored field o reply =
        (restored : Object) × (reply ≡ done restored)
        × ((j : Text)
            → value_at j restored
              ≡ (if text_eq field j then as_date (value_at field o) else value_at j o))

    unchanged :
        (field j : Text) (o : Object)
        → as_date (value_at field o) ≡ value_at field o
        → value_at j o ≡ (if text_eq field j then as_date (value_at field o) else value_at j o)
    unchanged field j o e = elim (Bool-cases (text_eq field j)) [
      | inl same ↦ rw same (ap (λ k. value_at k o) (sym ((text_eq_iff field j).0 same)) ∙ sym e)
      | inr differ ↦ rw differ refl
    ]

    restore_text-Restored :
        (field t : Text) (o : Object) (date : Option Datetime)
        → value_at field o ≡ some (text t)
        → fromisoformat t ≡ date
        → is_none date ≡ false
        → Restored field o (restore_value codec field o (some (text t)))
    unfolding restore_value
    restore_text-Restored field t o none e d r = absurd (cc r)
    restore_text-Restored field t o (some date) e d r = (
      codec.put_datetime field date o,
      rw (restore_value, d) refl,
      λ j. ground (arith, puts.value_put field j date o, e, d),
    )

    restore-Restored :
        (field : Text) (o : Object) (v : Option (FieldValue Datetime))
        → value_at field o ≡ v
        → reads v ≡ true
        → Restored field o (restore_value codec field o v)
    unfolding restore_value
    restore-Restored field o none e r = (o, refl, λ j. unchanged field j o (rw e refl))
    restore-Restored field o (some (text t)) e r =
        restore_text-Restored field t o (fromisoformat t) e refl (ground (arith, r))
    restore-Restored field o (some (datetime d)) e r =
        (o, refl, λ j. unchanged field j o (rw e refl))
    restore-Restored field o (some other) e r = (o, refl, λ j. unchanged field j o (rw e refl))

    -- The dict with its dates restored, field by field.
    pub restore_dates_lem :
        (o : Object)
        → reads (value_at (codes "created_at") o) ≡ true
        → reads (value_at (codes "updated_at") o) ≡ true
        → (restored : Object) × (restore_dates codec (object o) ≡ done restored)
          × ((field : Text)
              → value_at field restored
                ≡ (if is_date field then as_date (value_at field o) else value_at field o))
    unfolding restore_dates restore
    restore_dates_lem o c u =
        let (first, done_first, at_first) =
          restore-Restored (codes "created_at") o (value_at (codes "created_at") o) refl c in
        let same : value_at (codes "updated_at") first ≡ value_at (codes "updated_at") o =
          at_first (codes "updated_at") ∙ unfold text_eq in refl in
        let (second, done_second, at_second) =
          restore-Restored (codes "updated_at") first (value_at (codes "updated_at") first) refl
            (rw same u) in
        (
          second,
          rw (done_first, done_second) refl,
          λ field. ground (
            arith,
            at_second field,
            at_first field,
            same,
            text_eq_iff (codes "created_at") field,
            text_eq_iff (codes "updated_at") field,
            text_eq_iff field (codes "created_at"),
            text_eq_iff field (codes "updated_at"),
          ),
        )

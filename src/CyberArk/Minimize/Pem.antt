-- ===== src/CyberArk/Minimize/Pem.antt =====
-- `searchPEM` against the blocks of its input.
use jetstack_secure.Prelude.{
  ℕ, zero, suc, ◌+◌, ◌<◌, String, ◌≡◌, ◌↔◌, sym, Bool, true, some, arith, Bool-cases, Option-cases,
  inl, inr, true≢false,
}
use jetstack_secure.CyberArk.Minimize.{Decoders, Block, search_blocks, search_pem}

module _ (decoders : Decoders) where
  open decoders use {decode_pem, size}

  -- The block is in the input, at some depth.
  pub data HasBlock (block : Block) : String → Type 0 where
    here : {input rest : String} → decode_pem input ≡ some (block, rest) → HasBlock block input
    there :
        {input rest : String} {first : Block}
        → decode_pem input ≡ some (first, rest)
        → HasBlock block rest
        → HasBlock block input

  abbrev pub HasVisited : (Block → Bool) → String → Type 0
  HasVisited visitor input = (block : Block) × HasBlock block input × (visitor block ≡ true)

  search_blocks_sound :
      (n : ℕ) (visitor : Block → Bool) (input : String)
      → search_blocks decoders n visitor input ≡ true
      → HasVisited visitor input
  unfolding search_blocks
  search_blocks_sound zero visitor input h = absurd (true≢false (sym h))
  search_blocks_sound (suc n) visitor input h = elim (Option-cases (decode_pem input)) [
    | inl e ↦ let h' = rw (e, search_blocks) at h in absurd (true≢false (sym h'))
    | inr ((block, rest), e) ↦
        let h' = rw (e, search_blocks) at h in
        elim (Bool-cases (visitor block)) [
          | inl t ↦ (block, HasBlock.here e, t)
          | inr f ↦
              let (b, has, t) = search_blocks_sound n visitor rest (rw f at h') in
              (b, HasBlock.there e has, t)
        ]
  ]

  search_blocks_complete :
      (n : ℕ) (visitor : Block → Bool) (input : String) (block : Block)
      → HasBlock block input
      → size input < n
      → visitor block ≡ true
      → search_blocks decoders n visitor input ≡ true
  unfolding search_blocks
  search_blocks_complete zero visitor input block h s t = ground arith
  search_blocks_complete (suc n) visitor input block (HasBlock.here e) s t =
      rw (e, t, search_blocks)
  search_blocks_complete (suc n) visitor input block
        (HasBlock.there {rest = rest} {first = first} e later) s t =
      let shorter = decoders.decode_pem-shorter input first rest e in
      let found = search_blocks_complete n visitor rest block later (omega arith) t in
      elim (Bool-cases (visitor first)) [
        | inl y ↦ rw (e, y, search_blocks)
        | inr y ↦ rw (e, y, found, search_blocks)
      ]

  -- `searchPEM` answers true exactly where the input has, at any depth, a block that the visitor
  -- accepts: its fuel is enough for the whole input.
  pub search_pem_iff :
      (visitor : Block → Bool) (input : String)
      → (search_pem decoders input (some visitor) ≡ true) ↔ HasVisited visitor input
  unfolding search_pem
  search_pem_iff visitor input = (
    search_blocks_sound (size input + 1) visitor input,
    λ (block, has, t).
        search_blocks_complete (size input + 1) visitor input block has (omega arith) t,
  )

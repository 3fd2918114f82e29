-- ===== src/Signing/Bytes.antt =====
-- Bytes of numbers and of tags in src/types.rs can be read back.
use inazuma_core.Base.{
  ℕ, zero, suc, ◌+◌, ◌*◌, ◌/◌, ◌%◌, ◌^◌, ◌<◌, ◌≡◌, refl, ap, sym, ◌∙◌, List, [], ◌∷◌, ◌++◌, length,
  length-append, arith, ◌==◌, if◌then◌else◌,
}
use inazuma_core.Transactions.{TxKind}
use inazuma_core.Signing.{tag, to_be_bytes}

-- The bytes as one number in base 256.
abbrev number_from : ℕ → List ℕ → ℕ
number_from acc [] = acc
number_from acc (b ∷ bs) = number_from (acc * 256 + b) bs

kind_of : ℕ → TxKind
kind_of n =
    if n == 8390876182755042674
    then TxKind.transfer
    else (if n == 495873780581
        then TxKind.stake
        else (if n == 33054014427982693
            then TxKind.unstake
            else (if n == 9965318567481578667285574356483628803387246
                then TxKind.report_equivocation
                else (if n == 129117091621228
                    then TxKind.unjail
                    else (if n == 120223876064396142252352878
                        then TxKind.create_token
                        else (if n == 2018292241699196069230
                            then TxKind.mint_token
                            else (if n == 9224949521804078722926214800754
                                then TxKind.token_transfer
                                else (if n == 1816243867319683212654
                                    then TxKind.burn_token
                                    else (if n == 2036277798190618150217749169791860
                                        then TxKind.deploy_contract
                                        else (if n == 30756793791809357694598472564
                                            then TxKind.call_contract
                                            else (if n == 126892282047588
                                                then TxKind.shield
                                                else (if n == 583857798444827612024570543369250162
                                                    then TxKind.private_transfer
                                                    else (TxKind.unshield)))))))))))))

code-tag : (k : TxKind) → kind_of (number_from 0 (tag k)) ≡ k
unfolding tag kind_of
code-tag TxKind.transfer = refl
code-tag TxKind.stake = refl
code-tag TxKind.unstake = refl
code-tag TxKind.report_equivocation = refl
code-tag TxKind.unjail = refl
code-tag TxKind.create_token = refl
code-tag TxKind.mint_token = refl
code-tag TxKind.token_transfer = refl
code-tag TxKind.burn_token = refl
code-tag TxKind.deploy_contract = refl
code-tag TxKind.call_contract = refl
code-tag TxKind.shield = refl
code-tag TxKind.private_transfer = refl
code-tag TxKind.unshield = refl

pub tag-injective : (k l : TxKind) → tag k ≡ tag l → k ≡ l
tag-injective k l h = sym (code-tag k) ∙ ap (λ t. kind_of (number_from 0 t)) h ∙ code-tag l

number_from-append :
    (acc : ℕ) (bs : List ℕ) (b : ℕ) → number_from acc (bs ++ b ∷ []) ≡ number_from acc bs * 256 + b
number_from-append acc [] b = refl
number_from-append acc (c ∷ bs) b = number_from-append (acc * 256 + c) bs b

number_from-to_be_bytes : (width n : ℕ) → n < 256 ^ width → number_from 0 (to_be_bytes width n) ≡ n
unfolding to_be_bytes
number_from-to_be_bytes zero n h = omega (arith, h)
number_from-to_be_bytes (suc width) n h =
    number_from-append 0 (to_be_bytes width (n / 256)) (n % 256)
    ∙ ap (λ q. q * 256 + n % 256) (number_from-to_be_bytes width (n / 256) (omega (arith, h)))
    ∙ omega arith

pub length-to_be_bytes : (width n : ℕ) → length (to_be_bytes width n) ≡ width
unfolding to_be_bytes
length-to_be_bytes zero n = refl
length-to_be_bytes (suc width) n = omega (
  arith,
  length-append (to_be_bytes width (n / 256)) (n % 256 ∷ []),
  length-to_be_bytes width (n / 256),
)

pub to_be_bytes-injective :
    (width n m : ℕ)
    → n < 256 ^ width
    → m < 256 ^ width
    → to_be_bytes width n ≡ to_be_bytes width m
    → n ≡ m
to_be_bytes-injective width n m h k e =
    sym (number_from-to_be_bytes width n h)
    ∙ ap (number_from 0) e
    ∙ number_from-to_be_bytes width m k

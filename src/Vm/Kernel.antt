-- ===== src/Vm/Kernel.antt =====
-- The words of the kernel command line that controller/internal/vm/qemu_args.go builds.
use torvmremix.Base.{
  ℕ, zero, suc, ◌+◌, ◌≡◌, refl, ap, ◌∙◌, Bool, true, false, List, [], ◌∷◌, ◌++◌, ℤ, pos, negsuc,
  All-append, Bytes, bytes, is_nil, if◌then◌else◌, Free, split, decimal, decimal_fuel, port_text,
  hex_digit, arith, ◌≢◌, append-nil, append_assoc, ltb, Bool-cases, inl, inr, ◌/◌,
}
use torvmremix.Config.Schema.{Config}
use torvmremix.Vm.Shared.{hex_encode}
use torvmremix.Vm.Qemu.{kernel_append}

-- A word in front of a space is a part of the split.
split-word : (w s : Bytes) → Free 32 w → split 32 (w ++ (32 ∷ s)) ≡ w ∷ split 32 s
unfolding split
split-word [] s h = refl
split-word (a ∷ w) s h = rw (split-word w s h.1) (ground (arith, h.0))

split-last : (w : Bytes) → Free 32 w → split 32 w ≡ w ∷ []
unfolding split
split-last [] h = refl
split-last (a ∷ w) h = rw (split-last w h.1) (ground (arith, h.0))

hex_digit-free : (d : ℕ) → hex_digit d ≢ 32
unfolding hex_digit
hex_digit-free d = ground arith

hex_encode-Free : (s : Bytes) → Free 32 (hex_encode s)
unfolding hex_encode
hex_encode-Free [] = tt
hex_encode-Free (c ∷ s) = (hex_digit-free _, (hex_digit-free _, hex_encode-Free s))

digits-Free : (f n : ℕ) → Free 32 (decimal_fuel f n)
unfolding decimal_fuel
digits-Free zero n = (ground arith, tt)
digits-Free (suc f) n = elim (Bool-cases (ltb n 10)) [
  | inl h ↦ rw h (ground arith, tt)
  | inr h ↦
      rw h (All-append _ (decimal_fuel f (n / 10)) _ (digits-Free f (n / 10)) (ground arith, tt))
]

port-Free : (z : ℤ) → Free 32 (port_text z)
unfolding decimal bytes
port-Free (pos n) = digits-Free n n
port-Free (negsuc n) = (ground arith, digits-Free (n + 1) (n + 1))

-- The optional words, each with its space.
abbrev flag_words : Config → List Bytes
flag_words c =
    (if c.entropy.enable_haveged then bytes "HAVEGED=1" ∷ [] else [])
    ++ (if c.entropy.enable_rngd then bytes "RNGD=1" ∷ [] else [])
    ++ (if is_nil c.entropy.serial_entropy_device then [] else bytes "SERIAL_ENTROPY=1" ∷ [])

-- The words that the guest's init reads.
abbrev pub kernel_words : Config → Bytes → List Bytes
kernel_words c entropy =
    bytes "quiet"
    ∷ (bytes "IP=" ++ c.host_ip)
    ∷ (bytes "MASK=" ++ c.subnet_mask)
    ∷ (bytes "GW=" ++ c.vm_ip)
    ∷ bytes "MTU=1500"
    ∷ (bytes "PRIVIP=" ++ c.vm_ip)
    ∷ (bytes "CTLSOCK=" ++ c.vm_ip ++ bytes ":" ++ port_text c.control_port)
    ∷ (bytes "ENTROPY=" ++ entropy)
    ∷ flag_words c

Free-append : (s t : Bytes) → Free 32 s → Free 32 t → Free 32 (s ++ t)
Free-append s t h k = All-append (λ a. a ≢ 32) s t h k

suffix : Config → Bytes
suffix c =
    (if c.entropy.enable_haveged then bytes " HAVEGED=1" else [])
    ++ ((if c.entropy.enable_rngd then bytes " RNGD=1" else [])
        ++ (if is_nil c.entropy.serial_entropy_device then [] else bytes " SERIAL_ENTROPY=1"))

flags-split : (c : Config) (w : Bytes) → Free 32 w → split 32 (w ++ suffix c) ≡ w ∷ flag_words c
unfolding bytes suffix
flags-split c w h =
    go c.entropy.enable_haveged c.entropy.enable_rngd (is_nil c.entropy.serial_entropy_device)
  where
    go :
        (b d s : Bool)
        → split 32 (
            w
            ++ ((if b then bytes " HAVEGED=1" else [])
                ++ ((if d then bytes " RNGD=1" else [])
                    ++ (if s then [] else bytes " SERIAL_ENTROPY=1"))))
          ≡ w
            ∷ ((if b then bytes "HAVEGED=1" ∷ [] else [])
                ++ (if d then bytes "RNGD=1" ∷ [] else [])
                ++ (if s then [] else bytes "SERIAL_ENTROPY=1" ∷ []))
    go true true true = split-word w (bytes "HAVEGED=1 RNGD=1") h ∙ unfold split in refl
    go true true false =
        split-word w (bytes "HAVEGED=1 RNGD=1 SERIAL_ENTROPY=1") h ∙ unfold split in refl
    go true false true = split-word w (bytes "HAVEGED=1") h ∙ unfold split in refl
    go true false false = split-word w (bytes "HAVEGED=1 SERIAL_ENTROPY=1") h ∙ unfold split in refl
    go false true true = split-word w (bytes "RNGD=1") h ∙ unfold split in refl
    go false true false = split-word w (bytes "RNGD=1 SERIAL_ENTROPY=1") h ∙ unfold split in refl
    go false false false = split-word w (bytes "SERIAL_ENTROPY=1") h ∙ unfold split in refl
    go false false true = ap (split 32) (append-nil w) ∙ split-last w h

-- Addresses without a space cannot add a word to the kernel command line: cut at its spaces, the line
-- that BuildArgs makes with its entropy is the words that the guest reads, in their order.
pub kernel_append-words :
    (c : Config) (buf : Bytes)
    → Free 32 c.host_ip
    → Free 32 c.subnet_mask
    → Free 32 c.vm_ip
    → split 32 (kernel_append c (hex_encode buf)) ≡ kernel_words c (hex_encode buf)
unfolding kernel_append suffix bytes
kernel_append-words c buf h m v =
    ap (split 32) {x = kernel_append c (hex_encode buf)} {y = bytes "quiet" ++ (32 ∷ s1)}
      (simp append_assoc)
    ∙ split-word (bytes "quiet") s1 (ground arith)
    ∙ ap (λ l. bytes "quiet" ∷ l)
        (split-word (bytes "IP=" ++ c.host_ip) s2 (ground (arith, h))
          ∙ ap (λ l. (bytes "IP=" ++ c.host_ip) ∷ l)
              (split-word (bytes "MASK=" ++ c.subnet_mask) s3 (ground (arith, m))
                ∙ ap (λ l. (bytes "MASK=" ++ c.subnet_mask) ∷ l)
                    (split-word (bytes "GW=" ++ c.vm_ip) s4 (ground (arith, v))
                      ∙ ap (λ l. (bytes "GW=" ++ c.vm_ip) ∷ l)
                          (split-word (bytes "MTU=1500") s5 (ground arith)
                            ∙ ap (λ l. bytes "MTU=1500" ∷ l)
                                (split-word (bytes "PRIVIP=" ++ c.vm_ip) s6 (ground (arith, v))
                                  ∙ ap (λ l. (bytes "PRIVIP=" ++ c.vm_ip) ∷ l)
                                      (split-word socket s7 (
                                          Free-append (bytes "CTLSOCK=" ++ c.vm_ip ++ bytes ":") _
                                            (Free-append (bytes "CTLSOCK=" ++ c.vm_ip) _
                                              (ground (arith, v)) (ground arith))
                                            (port-Free c.control_port))
                                        ∙ ap (λ l. socket ∷ l)
                                            (flags-split c word
                                              (ground (arith, hex_encode-Free buf)))))))))
  where
    socket : Bytes
    socket = bytes "CTLSOCK=" ++ c.vm_ip ++ bytes ":" ++ port_text c.control_port

    word : Bytes
    word = bytes "ENTROPY=" ++ hex_encode buf

    s7 : Bytes
    s7 = word ++ suffix c

    s6 : Bytes
    s6 = socket ++ (32 ∷ s7)

    s5 : Bytes
    s5 = (bytes "PRIVIP=" ++ c.vm_ip) ++ (32 ∷ s6)

    s4 : Bytes
    s4 = bytes "MTU=1500" ++ (32 ∷ s5)

    s3 : Bytes
    s3 = (bytes "GW=" ++ c.vm_ip) ++ (32 ∷ s4)

    s2 : Bytes
    s2 = (bytes "MASK=" ++ c.subnet_mask) ++ (32 ∷ s3)

    s1 : Bytes
    s1 = (bytes "IP=" ++ c.host_ip) ++ (32 ∷ s2)

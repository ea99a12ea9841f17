-- ===== src/Tests/Images.antt =====
-- The table of images and the console, on concrete inputs.
use podman_bootc.Base.{
  ℕ, ◌-◌, ◌≡◌, ◌≢◌, refl, Text, lit, List, [], ◌∷◌, ◌++◌, Option, some, arith, text_eq,
}
use podman_bootc.Base.Int.{pos}
use podman_bootc.Cmd.Images.{
  ImageSummary, Reference, tagged, image_rows, split_tags, token_repo_tag, no_name, shown,
  collect_rows,
}
use podman_bootc.Cmd.Images.Columns.{spaced}
use podman_bootc.Cmd.Images.Order.{
  sort_images, sort_slice, put, put_all, sort_func, is_newer, created_time,
}
use podman_bootc.Cmd.Images.Rows.{Outcome, Shown, NameError, row_of, image_rows-IsShown}
use podman_bootc.Cmd.Images.Sizes.{spaced-number}
use podman_bootc.Cmd.Images.Sorted.{Sorted, ImageError, sort_images-IsNewestFirst}
use podman_bootc.Go.Errors.{ok}
use podman_bootc.Tests.Sim.{calm, id_a}
use podman_bootc.Tests.Storage.{vm_a}
use podman_bootc.Vm.Console.{print_console}
use podman_bootc.Vm.Console.Rounds.{received, print_console-ends}
use podman_bootc.Vm.Linux.{BootcVmLinux}
use podman_bootc.World.Calls.{System, Answer, done, Measure, receive, Trace}

abbrev image_a : ImageSummary
image_a = record {
  id = id_a;
  created = pos 0;
  size = pos 1000;
  repo_tags = lit "<none>:<none>" ∷ lit "quay.io/a:v1" ∷ [];
  history = [];
}

abbrev image_b : ImageSummary
image_b = record image_a { created = pos 1; repo_tags = lit "quay.io/b:v1" ∷ [] }

abbrev parse_a : Text → Answer Reference
parse_a ref = done (tagged (lit "quay.io/a") (lit "v1"))

image_rows-IsShown_example :
    Outcome
      (Shown parse_a image_a)
      (NameError parse_a image_a.repo_tags)
      (image_rows parse_a image_a)
image_rows-IsShown_example = image_rows-IsShown parse_a image_a

-- Two images, of which the second was made last and comes first.
sorted_rows :
    sort_images parse_a (image_a ∷ image_b ∷ [])
    ≡ ok (
        row_of image_b (lit "quay.io/a", lit "v1")
        ∷ row_of image_a (lit "quay.io/a", lit "v1")
        ∷ [])
unfolding sort_images sort_slice put_all put sort_func is_newer created_time collect_rows image_rows
    split_tags token_repo_tag no_name shown text_eq lit podman_bootc.Base.Int.add64
sorted_rows = refl

sort_images-IsNewestFirst_example :
    Outcome
      (Sorted parse_a (image_a ∷ image_b ∷ []))
      (ImageError parse_a (image_a ∷ image_b ∷ []))
      (sort_images parse_a (image_a ∷ image_b ∷ []))
sort_images-IsNewestFirst_example = sort_images-IsNewestFirst parse_a (image_a ∷ image_b ∷ [])

spaced-number_example :
    spaced ((b'1' ∷ b'.' ∷ (b'5' ∷ [])) ++ (b'G' ∷ b'B' ∷ []))
    ≡ (b'1' ∷ b'.' ∷ (b'5' ∷ [])) ++ (b' ' ∷ b'G' ∷ b'B' ∷ [])
spaced-number_example =
    spaced-number (b'1' ∷ b'.' ∷ []) b'5' (b'G' ∷ b'B' ∷ []) refl (refl, (refl, tt))

-- A stream that ends at the third question.
abbrev measure_console : Trace → Measure → Answer ℕ
measure_console t (receive s) = done (2 - received t)
measure_console t _ = done 3

abbrev console : System
console = record calm { measure = measure_console }

abbrev vm_running : BootcVmLinux
vm_running = record {
  domain = some 7;
  libvirt_uri = lit "qemu:///session";
  libvirt_connection = some 3;
  common = vm_a;
}

print_console-ends_example :
    (print_console console 3 vm_running [] ≡ print_console console 10 vm_running [])
    × ((o : Option (Unit {0})) → (print_console console 3 vm_running []).0 ≡ ok o → o ≡ some tt)
print_console-ends_example =
    print_console-ends console vm_running 2 3 10 [] (λ s u h. omega (arith, h)) (omega arith)
      (omega arith)

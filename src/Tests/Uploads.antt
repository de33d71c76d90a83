-- ===== src/Tests/Uploads.antt =====
-- An upload with two files, which is refused.
use smugbox.Api.Uploads.{Part, file, post_photo, put_photo}
use smugbox.Api.Uploads.Refused.{IsRefused, post_photo-IsRefused, count_files}
use smugbox.Tests.Data.{tools, passwords, world}
use smugbox.Common.{List, codes, ◌∷◌, [], inl, inr, some, arith}

abbrev two_files : List Part
two_files =
    file (codes "one.jpg") (inl (codes "first"))
    ∷ file (codes "two.jpg") (inl (codes "second"))
    ∷ []

post_photo-IsRefused_example :
    IsRefused world (post_photo tools passwords 9 (codes "p5") (codes "a1") (some two_files) world)
    × IsRefused world
        (put_photo tools passwords 9 (codes "p5") (codes "a1") (codes "p1") (some two_files) world)
unfolding count_files
post_photo-IsRefused_example =
    post_photo-IsRefused tools passwords 9 (codes "p5") (codes "a1") (codes "p1") two_files world
      (inr (omega arith))
